-- ===== src/Common/Text/Search/Suffix.antt =====
-- A text has a suffix if it is something before that suffix.
use Prim.Native.String
use Prim.Native.String.{String}
use Prim.Native.String.append.{nil, cons}
use go_bank.Common.{◌≡◌, refl, ap, sym, ◌∙◌, true, str_eq, eq_iff, Bool-cases, inl, inr, arith}
use go_bank.Common.Text.Search.{has_suffix}

pub has_suffix-split :
    (s suffix : String)
    → has_suffix s suffix ≡ true
    → (before : String) × (s ≡ String.◌++◌ before suffix)
unfolding has_suffix
has_suffix-split String.[] suffix h = ("", (eq_iff "" suffix).0 h ∙ sym (nil suffix))
has_suffix-split (String.◌∷◌ c s) suffix h = elim (Bool-cases (str_eq (String.◌∷◌ c s) suffix)) [
  | inl same ↦ ("", (eq_iff (String.◌∷◌ c s) suffix).0 same ∙ sym (nil suffix))
  | inr other ↦
      let (before, e) = has_suffix-split s suffix (rw other at h) in
      (String.◌∷◌ c before, ap (String.◌∷◌ c) e ∙ sym (cons c before suffix))
]

has_suffix_self : (s : String) → has_suffix s s ≡ true
unfolding has_suffix
has_suffix_self String.[] = (eq_iff "" "").1 refl
has_suffix_self (String.◌∷◌ c s) = rw ((eq_iff (String.◌∷◌ c s) (String.◌∷◌ c s)).1 refl) refl

pub has_suffix-append :
    (before suffix : String) → has_suffix (String.◌++◌ before suffix) suffix ≡ true
unfolding has_suffix
has_suffix-append String.[] suffix =
    ap (λ x. has_suffix x suffix) (nil suffix) ∙ has_suffix_self suffix
has_suffix-append (String.◌∷◌ c before) suffix =
    let rest = has_suffix-append before suffix in
    ap (λ x. has_suffix x suffix) (cons c before suffix) ∙ ground arith
