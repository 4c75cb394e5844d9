-- ===== src/Process/Gateway/Origins.antt =====
-- The origins that corsMiddleware of main.go lets read an answer.
use Prim.Native.String
use Prim.Native.String.{String}
use go_bank.Common.{◌≡◌, ap, ◌∙◌, true, ◌⊎◌, inl, inr, ◌↔◌, str_eq, eq_iff, Bool-cases, arith}
use go_bank.Common.Text.Search.{has_suffix}
use go_bank.Common.Text.Search.Suffix.{has_suffix-split, has_suffix-append}
use go_bank.Process.Gateway.{is_allowed}

-- The two local front ends, and whatever ends in ".vercel.app".
abbrev pub Trusted : String → Type 0
Trusted origin =
    (origin ≡ "http://localhost:3000")
    ⊎ (origin ≡ "http://localhost:3001")
    ⊎ (before : String) × (origin ≡ String.◌++◌ before ".vercel.app")

to_Trusted : (origin : String) → is_allowed origin ≡ true → Trusted origin
unfolding is_allowed
to_Trusted origin h = elim (Bool-cases (str_eq origin "http://localhost:3000")) [
  | inl one ↦ inl ((eq_iff origin "http://localhost:3000").0 one)
  | inr n ↦ elim (Bool-cases (str_eq origin "http://localhost:3001")) [
    | inl two ↦ inr (inl ((eq_iff origin "http://localhost:3001").0 two))
    | inr m ↦ inr (inr (has_suffix-split origin ".vercel.app" (rw (n, m) at h)))
  ]
]

from_Trusted : (origin : String) → Trusted origin → is_allowed origin ≡ true
unfolding is_allowed
from_Trusted origin (inl e) = let same = (eq_iff origin "http://localhost:3000").1 e in ground arith
from_Trusted origin (inr (inl e)) =
    let same = (eq_iff origin "http://localhost:3001").1 e in ground arith
from_Trusted origin (inr (inr (before, e))) =
    let ends = ap (λ x. has_suffix x ".vercel.app") e ∙ has_suffix-append before ".vercel.app" in
    ground arith

pub is_allowed-iff_Trusted : (origin : String) → is_allowed origin ≡ true ↔ Trusted origin
is_allowed-iff_Trusted origin = (to_Trusted origin, from_Trusted origin)
