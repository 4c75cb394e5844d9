-- ===== src/Db/Effects.antt =====
-- Two promises about a call: it changes no table, or it changes none unless it succeeds. Both pass
-- through `do` blocks.
pub mod Statements
pub mod Books
use go_bank.Common.{◌≡◌, refl, ap, sym, ◌∙◌, Bool, Option, arith, if◌then◌else◌}
use go_bank.Db.World.{
  World, Action, DbError, Result, ok, err, pure, fail, bind_result, map_result, or_else, exchange,
  ◌>>=◌,
}
use go_bank.Db.Tx.Exec.{exec_tx, exec_tx-atomic}

pub record ReadsOnly {E A : Type 0} (m : Action E A) : Type 0 where
  pub same : (w : World) → (m w).1.tables ≡ w.tables

pub record IsAtomic {E A : Type 0} (m : Action E A) : Type 0 where
  pub undone : (w w' : World) (e : E) → m w ≡ (err e, w') → w'.tables ≡ w.tables

module _ {E A : Type 0} where
  pub pure-ReadsOnly : (a : A) → ReadsOnly (pure {E = E} a)
  pure-ReadsOnly a = record { same = λ w. refl }

  pub fail-ReadsOnly : (e : E) → ReadsOnly (fail {A = A} e)
  fail-ReadsOnly e = record { same = λ w. refl }

  pub ReadsOnly-IsAtomic : {m : Action E A} → ReadsOnly m → IsAtomic m
  ReadsOnly-IsAtomic r = record { undone = λ w w' e h. ap (λ p. p.1.tables) (sym h) ∙ r.same w }

  pub if-ReadsOnly :
      (c : Bool) {m k : Action E A} → ReadsOnly m → ReadsOnly k → ReadsOnly (if c then m else k)
  if-ReadsOnly Bool.true r s = r
  if-ReadsOnly Bool.false r s = s

  pub if-IsAtomic :
      (c : Bool) {m k : Action E A} → IsAtomic m → IsAtomic k → IsAtomic (if c then m else k)
  if-IsAtomic Bool.true r s = r
  if-IsAtomic Bool.false r s = s

module _ {E A B : Type 0} (m : Action E A) (f : A → Action E B) where
  bind_result-same :
      (r : Result E A) (w : World)
      → ((a : A) → ReadsOnly (f a))
      → (bind_result f r w).1.tables ≡ w.tables
  bind_result-same (ok a) w s = (s a).same w
  bind_result-same (err e) w s = refl

  pub >>=-ReadsOnly : ReadsOnly m → ((a : A) → ReadsOnly (f a)) → ReadsOnly (m >>= f)
  >>=-ReadsOnly r s = record { same = λ w. bind_result-same (m w).0 (m w).1 s ∙ r.same w }

  bind_result-undone :
      (r : Result E A) (w w' : World) (e : E)
      → ((a : A) → IsAtomic (f a))
      → bind_result f r w ≡ (err e, w')
      → w'.tables ≡ w.tables
  bind_result-undone (ok a) w w' e s h = (s a).undone w w' e h
  bind_result-undone (err x) w w' e s h = ground arith

  -- First what only reads, then what is atomic.
  pub >>=-IsAtomic : ReadsOnly m → ((a : A) → IsAtomic (f a)) → IsAtomic (m >>= f)
  >>=-IsAtomic r s = record {
    undone = λ w w' e h. bind_result-undone (m w).0 (m w).1 w' e s h ∙ r.same w;
  }

bind_pure-undone :
    {E A B : Type 0} (g : A → B) (r : Result E A) (w w' : World) (e : E)
    → bind_result (λ a. pure (g a)) r w ≡ (err e, w')
    → (r ≡ err e) × (w ≡ w')
bind_pure-undone g (ok a) w w' e h = cc
bind_pure-undone g (err x) w w' e h = ground arith

or_else-undone :
    {E F A : Type 0} (f : E → F) (r : Result E A) (w w' : World) (e : F)
    → ◌≡◌ {A = Result F A × World} (map_result f r, w) (err e, w')
    → (x : E) × (r ≡ err x) × (w ≡ w')
or_else-undone f (ok a) w w' e h = cc
or_else-undone f (err x) w w' e h = (x, refl, ap (λ p. p.1) h)

module _ {E A B : Type 0} {m : Action E A} where
  -- An atomic call stays so if only its answer is converted.
  pub convert-IsAtomic : (g : A → B) → IsAtomic m → IsAtomic (m >>= λ a. pure (g a))
  convert-IsAtomic g r = record {
    undone = λ w w' e h.
        let (failed, left) = bind_pure-undone g (m w).0 (m w).1 w' e h in
        ap (λ v. v.tables) (sym left) ∙ r.undone w (m w).1 e (λ i. (failed i, (m w).1));
  }

module _ {E F A : Type 0} {m : Action E A} (f : E → F) where
  pub or_else-ReadsOnly : ReadsOnly m → ReadsOnly (or_else m f)
  or_else-ReadsOnly r = record { same = λ w. r.same w }

  pub or_else-IsAtomic : IsAtomic m → IsAtomic (or_else m f)
  or_else-IsAtomic r = record {
    undone = λ w w' e h.
        let (x, failed, left) = or_else-undone f (m w).0 (m w).1 w' e h in
        ap (λ v. v.tables) (sym left) ∙ r.undone w (m w).1 x (λ i. (failed i, (m w).1));
  }

pub exec_tx-IsAtomic : {A : Type 0} (fn : Action DbError A) → IsAtomic (exec_tx fn)
exec_tx-IsAtomic fn = record { undone = λ w w' e h. exec_tx-atomic fn w w' h }
