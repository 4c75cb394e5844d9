-- ===== src/Val/Validation.antt =====
-- val/validation.go. A Go string is a `String` here, so it is valid UTF-8; `len` counts its bytes. An
-- error is reported as the fact that there is one: its text is left out. The two regular
-- expressions accept a text that is not empty and all of whose characters are in a class.
-- `mail.ParseAddress` is a parameter that says whether it accepts.
use Prim.Native.Char.{code}
use go_bank.Common.{
  ℕ, Bool, true, false, not, ◌&&◌, ◌||◌, Option, none, some, String, len, ltb, leb, ◌==◌,
}
use go_bank.Common.Int.{ℤ, pos, ltb_ℤ, leb_ℤ}
use go_bank.Util.Float.{Float64, le_zero}
use go_bank.Util.Currencies.{is_supported_currency}

-- `Check` is Go's `error`: `bad` for any error.
pub data Check : Type 0 where
  fine bad : Check

abbrev pub error_if : Bool → Check
error_if true = bad
error_if false = fine

-- `if err := m; err != nil { return … }` and then the rest.
infixl 5 ◌>>◌
abbrev pub ◌>>◌ : Check → Check → Check
fine >> k = k
bad >> k = bad

abbrev all_chars : (ℕ → Bool) → String → Bool
all_chars p String.[] = true
all_chars p (String.◌∷◌ c s) = p (code c) && all_chars p s

abbrev is_nonempty : String → Bool
is_nonempty String.[] = false
is_nonempty (String.◌∷◌ c s) = true

abbrev in_range : (lo hi c : ℕ) → Bool
in_range lo hi c = leb lo c && leb c hi

abbrev pub username_char : ℕ → Bool
username_char c = in_range b'a' b'z' c || in_range b'0' b'9' c || c == b'_'

-- \s is a tab, a newline, a form feed, a carriage return or a space.
abbrev pub fullname_char : ℕ → Bool
fullname_char c =
    in_range b'a' b'z' c
    || in_range b'A' b'Z' c
    || c == 9
    || c == 10
    || c == 12
    || c == 13
    || c == 32

unfoldable pub is_valid_username : String → Bool
is_valid_username s = is_nonempty s && all_chars username_char s

unfoldable pub is_valid_fullname : String → Bool
is_valid_fullname s = is_nonempty s && all_chars fullname_char s

unfoldable pub validate_string : String → (min_length max_length : ℕ) → Check
validate_string value min_length max_length =
    error_if (ltb (len value) min_length || ltb max_length (len value))

unfoldable pub validate_username : String → Check
unfolding validate_string
validate_username username =
    validate_string username 3 50 >> error_if (not (is_valid_username username))

unfoldable pub validate_password : String → Check
unfolding validate_string
validate_password password = validate_string password 8 100

unfoldable pub validate_email : (parse_address : String → Bool) → String → Check
unfolding validate_string
validate_email parse_address email =
    validate_string email 5 100 >> error_if (not (parse_address email))

unfoldable pub validate_fullname : String → Check
unfolding validate_string
validate_fullname fullname =
    validate_string fullname 2 100 >> error_if (not (is_valid_fullname fullname))

unfoldable pub validate_id : ℤ → Check
validate_id id = error_if (leb_ℤ id (pos 0))

unfoldable pub validate_currency : String → Check
unfolding validate_string
validate_currency currency =
    validate_string currency 3 3 >> error_if (not (is_supported_currency currency))

unfoldable pub validate_page_id : ℤ → Check
validate_page_id page_id = error_if (ltb_ℤ page_id (pos 1))

unfoldable pub validate_page_size : ℤ → Check
validate_page_size page_size = error_if (ltb_ℤ page_size (pos 1) || ltb_ℤ (pos 100) page_size)

unfoldable pub validate_amount : Float64 → Check
validate_amount amount = error_if (le_zero amount)

unfoldable pub validate_optional_string : Option String → (String → Check) → Check
validate_optional_string none validate = fine
validate_optional_string (some value) validate = validate value
