-- ===== src/Api/Agreement.antt =====
-- What it means for a handler of api and an RPC of gapi to do the same: from every world they leave the
-- same world, and their answers are related, errors by a translation of statuses.
pub mod Rules
pub mod Requests
pub mod Accounts
pub mod Transfers
pub mod Sessions
use go_bank.Common.{◌≡◌, refl, ap, ◌∙◌}
use mathlib.Core.Path.{subst}
use go_bank.Db.World.{World, Action, Result, ok, err, pure, bind_result, ◌>>=◌}

module _ {E F A B : Type 0} (R : A → B → Type 0) (f : F → E) where
  abbrev pub Related : Result E A → Result F B → Type 0
  Related (ok a) (ok b) = R a b
  Related (err e) (err e') = e ≡ f e'
  Related _ _ = ⊥

  pub record Agree (m : Action E A) (n : Action F B) : Type 0 where
    pub answers : (w : World) → Related (m w).0 (n w).0
    pub worlds : (w : World) → (m w).1 ≡ (n w).1

abbrev pub IsSame : {A : Type 0} → A → A → Type 0
IsSame a b = a ≡ b

module _ {E F : Type 0} {f : F → E} where
  pub pure-Agree :
      {A B : Type 0} {R : A → B → Type 0} (a : A) (b : B) → R a b → Agree R f (pure a) (pure b)
  pure-Agree a b r = record { answers = λ w. r; worlds = λ w. refl }

  pub >>=-Agree :
      {A B C D : Type 0} {R : A → B → Type 0} {S : C → D → Type 0} {m : Action E A} {n : Action F B}
      {k : A → Action E C} {l : B → Action F D}
      → Agree R f m n
      → ((a : A) (b : B) → R a b → Agree S f (k a) (l b))
      → Agree S f (m >>= k) (n >>= l)
  >>=-Agree {R} {S} {m} {n} {k} {l} first next = record {
    answers = λ w. (go (m w).0 (n w).0 (m w).1 (n w).1 (first.answers w) (first.worlds w)).0;
    worlds = λ w. (go (m w).0 (n w).0 (m w).1 (n w).1 (first.answers w) (first.worlds w)).1;
  }
    where
      go :
          (x : Result E _) (y : Result F _) (v v' : World)
          → Related R f x y
          → v ≡ v'
          → Related S f (bind_result k x v).0 (bind_result l y v').0
            × ((bind_result k x v).1 ≡ (bind_result l y v').1)
      go (ok a) (ok b) v v' r e = (
        subst (λ u. Related S f (k a v).0 (l b u).0) e ((next a b r).answers v),
        (next a b r).worlds v ∙ ap (λ u. (l b u).1) e,
      )
      go (err x) (err y) v v' r e = (r, e)
      go (ok a) (err y) v v' r e = absurd r
      go (err x) (ok b) v v' r e = absurd r

  -- The two go on with one value.
  pub >>=-Same :
      {A C D : Type 0} {S : C → D → Type 0} {m : Action E A} {n : Action F A} {k : A → Action E C}
      {l : A → Action F D}
      → Agree IsSame f m n
      → ((a : A) → Agree S f (k a) (l a))
      → Agree S f (m >>= k) (n >>= l)
  >>=-Same {S} {k} {l} first next =
      >>=-Agree first λ a b e. subst (λ x. Agree S f (k a) (l x)) e (next a)
