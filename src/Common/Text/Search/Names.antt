-- ===== src/Common/Text/Search/Names.antt =====
-- The two parts of a path of two names.
use Prim.Native.Char.{code}
use Prim.Native.String
use Prim.Native.String.{String}
use Prim.Native.String.append.{nil, cons}
use go_bank.Common.{◌≡◌, refl, ap, sym, ◌∙◌, Bool, true, not, ◌&&◌, none, some, ◌==◌, str_eq, arith}
use go_bank.Common.Text.Search.{before_last, after_last}

-- No character of the text is a slash.
unfoldable pub has_no_slash : String → Bool
has_no_slash String.[] = true
has_no_slash (String.◌∷◌ c s) = not (code c == b'/') && has_no_slash s

-- A name of one step of a path that is clean.
unfoldable pub is_name : String → Bool
unfolding has_no_slash
is_name s = not (str_eq s "") && not (str_eq s ".") && not (str_eq s "..") && has_no_slash s

before_last-none : (s : String) → has_no_slash s ≡ true → before_last s b'/' ≡ none
unfolding has_no_slash before_last
before_last-none String.[] h = refl
before_last-none (String.◌∷◌ c s) h = ground (arith, before_last-none s)

after_last-whole : (s : String) → has_no_slash s ≡ true → after_last s b'/' ≡ s
unfolding has_no_slash after_last
after_last-whole String.[] h = refl
after_last-whole (String.◌∷◌ c s) h = ground (arith, after_last-whole s, before_last-none s)

slash_first : (t : String) → String.◌++◌ "/" t ≡ String.◌∷◌ "/" t
slash_first t = cons "/" "" t ∙ ap (String.◌∷◌ "/") (nil t)

pub slash_grouped :
    (s t : String) → String.◌++◌ "/" (String.◌++◌ s t) ≡ String.◌++◌ (String.◌∷◌ "/" s) t
slash_grouped s t = slash_first (String.◌++◌ s t) ∙ sym (cons "/" s t)

pub before_last-cut :
    (s t : String)
    → has_no_slash t ≡ true
    → before_last (String.◌++◌ s (String.◌++◌ "/" t)) b'/' ≡ some s
unfolding before_last
before_last-cut String.[] t h =
    ap (λ x. before_last x b'/') (nil (String.◌++◌ "/" t) ∙ slash_first t)
    ∙ rw (before_last-none t h) refl
before_last-cut (String.◌∷◌ c s) t h =
    ap (λ x. before_last x b'/') (cons c s (String.◌++◌ "/" t)) ∙ rw (before_last-cut s t h) refl

pub after_last-cut :
    (s t : String) → has_no_slash t ≡ true → after_last (String.◌++◌ s (String.◌++◌ "/" t)) b'/' ≡ t
unfolding after_last before_last
after_last-cut String.[] t h =
    ap (λ x. after_last x b'/') (nil (String.◌++◌ "/" t) ∙ slash_first t)
    ∙ rw (before_last-none t h, after_last-whole t h) refl
after_last-cut (String.◌∷◌ c s) t h =
    ap (λ x. after_last x b'/') (cons c s (String.◌++◌ "/" t))
    ∙ rw (before_last-cut s t h, after_last-cut s t h) refl

pub is_name-no_slash : (s : String) → is_name s ≡ true → has_no_slash s ≡ true
unfolding is_name
is_name-no_slash s h = ground arith
