-- ===== src/Common/Text/Search.antt =====
-- What the program uses of Go's strings package to search texts. A text is searched for ASCII bytes, which
-- UTF-8 never uses inside another character, so the positions of characters serve.
pub mod Names
pub mod Suffix
use Prim.Native.Char.{Char, code}
use Prim.Native.String
use Prim.Native.String.{String}
use go_bank.Common.{
  ℕ, ◌-◌, Bool, true, false, ◌&&◌, ◌||◌, Option, none, some, if◌then◌else◌, leb, ◌==◌, str_eq,
}

-- strings.HasPrefix
unfoldable pub has_prefix : (s prefix : String) → Bool
has_prefix s String.[] = true
has_prefix String.[] (String.◌∷◌ d p) = false
has_prefix (String.◌∷◌ c s) (String.◌∷◌ d p) = code c == code d && has_prefix s p

-- strings.HasSuffix
unfoldable pub has_suffix : (s suffix : String) → Bool
has_suffix String.[] suffix = str_eq "" suffix
has_suffix (String.◌∷◌ c s) suffix = str_eq (String.◌∷◌ c s) suffix || has_suffix s suffix

abbrev longer : Char → Option String → Option String
longer c none = none
longer c (some s) = some (String.◌∷◌ c s)

-- `s[:idx]` for `idx := strings.IndexByte(s, b)`, none where it is negative.
unfoldable pub before_first : (s : String) (b : ℕ) → Option String
before_first String.[] b = none
before_first (String.◌∷◌ c s) b =
    let rest = before_first s b in if code c == b then some "" else longer c rest

abbrev cut_here : Bool → Option String
cut_here true = some ""
cut_here false = none

-- The longer prefix, if the byte occurs again, or the cut before this character, if it is the byte.
abbrev last_cut : Char → Bool → Option String → Option String
last_cut c here none = cut_here here
last_cut c here (some s) = some (String.◌∷◌ c s)

-- `s[:idx]` for `idx := strings.LastIndexByte(s, b)`, none where it is negative.
unfoldable pub before_last : (s : String) (b : ℕ) → Option String
before_last String.[] b = none
before_last (String.◌∷◌ c s) b = last_cut c (code c == b) (before_last s b)

abbrev rest_or_whole : Bool → Bool → String → String → String
rest_or_whole true here rest whole = rest
rest_or_whole false true rest whole = rest
rest_or_whole false false rest whole = whole

abbrev is_cut : Option String → Bool
is_cut none = false
is_cut (some s) = true

-- What follows the last of a byte, or the whole text.
unfoldable pub after_last : (s : String) (b : ℕ) → String
unfolding before_last
after_last String.[] b = ""
after_last (String.◌∷◌ c s) b =
    let rest = after_last s b in
    rest_or_whole (is_cut (before_last s b)) (code c == b) rest (String.◌∷◌ c s)

-- One character under strings.ToLower, for ASCII.
abbrev lower_char : Char → Char
lower_char c =
    if leb b'A' (code c) && leb (code c) b'Z'
    then String.char_at "abcdefghijklmnopqrstuvwxyz" (code c - b'A')
    else c

-- strings.ToLower of an ASCII text, as the names of headers are.
unfoldable pub to_lower : String → String
to_lower String.[] = ""
to_lower (String.◌∷◌ c s) = String.◌∷◌ (lower_char c) (to_lower s)
