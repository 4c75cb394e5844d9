-- ===== src/Db/Guards.antt =====
-- What is known of a call whose errors are translated when it succeeds.
use go_bank.Common.{◌≡◌, ap, arith}
use go_bank.Db.World.{World, Action, Result, ok, err, map_result, or_else, >>=-eq-ok, ◌>>=◌}

map_result-eq-ok :
    {E F A : Type 0} (f : E → F) (r : Result E A) {a : A} → map_result f r ≡ ok a → r ≡ ok a
map_result-eq-ok f (ok x) h = ground arith
map_result-eq-ok f (err e) h = cc

pub or_else_passed :
    {E F A : Type 0} (m : Action E A) (f : E → F) (w w' : World) {a : A}
    → or_else m f w ≡ (ok a, w')
    → m w ≡ (ok a, w')
or_else_passed m f w w' h =
    let done : (m w).0 ≡ ok _ = map_result-eq-ok f (m w).0 (ap (λ p. p.0) h) in
    let left : (m w).1 ≡ w' = ap (λ p. p.1) h in λ i. (done i, left i)

pub after_or_else :
    {E F A B : Type 0} (m : Action E A) (f : E → F) (k : A → Action F B) (w w' : World) {b : B}
    → (or_else m f >>= k) w ≡ (ok b, w')
    → (a : A) × (v : World) × (m w ≡ (ok a, v)) × (k a v ≡ (ok b, w'))
after_or_else m f k w w' h =
    let (a, v, passed, rest) = >>=-eq-ok (or_else m f) k w w' h in
    (a, v, or_else_passed m f w v passed, rest)
