-- ===== src/Common/Text.antt =====
-- What the program uses of Go's strings, unicode and fmt packages.
pub mod Decimal
pub mod Search
use Prim.Native.Char.{Char, code}
use Prim.Native.String
use Prim.Native.String.{String}
use go_bank.Common.{ℕ, zero, suc, ◌/◌, ◌%◌, Bool, ◌&&◌, ◌||◌, if◌then◌else◌, leb, ltb, ◌==◌, str_eq}
use go_bank.Common.Int.{ℤ, pos, negsuc}

-- unicode.IsSpace
abbrev pub is_space : ℕ → Bool
is_space c =
    (leb 9 c && leb c 13)
    || c == 32
    || c == 0x85
    || c == 0xa0
    || c == 0x1680
    || (leb 0x2000 c && leb c 0x200a)
    || c == 0x2028
    || c == 0x2029
    || c == 0x202f
    || c == 0x205f
    || c == 0x3000

abbrev pub single : Char → String
single c = String.◌∷◌ c String.[]

trim_left : String → String
trim_left String.[] = ""
trim_left (String.◌∷◌ c s) =
    let rest = trim_left s in if is_space (code c) then rest else String.◌∷◌ c s

trim_right : String → String
trim_right String.[] = ""
trim_right (String.◌∷◌ c s) =
    let rest = trim_right s in if is_space (code c) && str_eq rest "" then "" else String.◌∷◌ c rest

-- strings.TrimSpace
unfoldable pub trim_space : String → String
unfolding trim_left trim_right
trim_space s = trim_right (trim_left s)

-- The decimal digits of n, at most `fuel` of them.
unfoldable pub digits : (fuel n : ℕ) → String
digits zero n = ""
digits (suc fuel) n =
    let rest = digits fuel (n / 10) in
    let last = single (String.char_at "0123456789" (n % 10)) in
    if ltb n 10 then last else String.◌++◌ rest last

-- `%d` of an int64, which has at most 19 digits.
unfoldable pub decimal : ℤ → String
unfolding digits
decimal (pos n) = digits 19 n
decimal (negsuc n) = String.◌++◌ "-" (digits 19 (suc n))
