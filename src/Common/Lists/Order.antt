-- ===== src/Common/Lists/Order.antt =====
-- What `ORDER BY` makes of a list: a rearrangement in ascending order.
use mathlib.Core.List.{Mem, Perm, Pairwise, Pairwise-singleton, forall_mem-cons}
use mathlib.Core.List.Perm
use go_bank.Common.{◌≡◌, true, false, Bool, List, [], ◌∷◌, Bool-cases, inl, inr}
use go_bank.Common.Lists.{insert_by, order_by}

module _ {ℓ} {A : Type ℓ} (before : A → A → Bool) where
  insert_by-perm : (x : A) (l : List A) → Perm (insert_by before x l) (x ∷ l)
  insert_by-perm x [] = Perm.rfl
  insert_by-perm x (y ∷ ys) = elim (Bool-cases (before x y)) [
    | inl h ↦ rw h Perm.rfl
    | inr h ↦ rw h (Perm.trans (Perm.cons y (insert_by-perm x ys)) (Perm.swap x y ys))
  ]

  pub order_by-perm : (l : List A) → Perm (order_by before l) l
  order_by-perm [] = Perm.rfl
  order_by-perm (x ∷ xs) =
      Perm.trans (insert_by-perm x (order_by before xs)) (Perm.cons x (order_by-perm xs))

module _ {A : Type 0} (before : A → A → Bool) (R : A → A → Type 0)
    (prop : (a b : A) → IsProp (R a b)) (yes : (a b : A) → before a b ≡ true → R a b)
    (no : (a b : A) → before a b ≡ false → R b a)
    (trans : (a b c : A) → R a b → R b c → R a c) where
  abbrev IsBelow : A → List A → Type 0
  IsBelow a l = (x : A) → Mem x l → R a x

  IsBelow-cons : (a b : A) (l : List A) → R a b → IsBelow a l → IsBelow a (b ∷ l)
  IsBelow-cons a b l p h = (forall_mem-cons (prop a)).1 (p, h)

  IsBelow-perm : (a : A) (l r : List A) → Perm l r → IsBelow a r → IsBelow a l
  IsBelow-perm a l r p h x m = h x ((Perm.mem_iff p).0 m)

  insert_by-Pairwise : (x : A) {l : List A} → Pairwise R l → Pairwise R (insert_by before x l)
  insert_by-Pairwise x Pairwise.nil = Pairwise-singleton _ x
  insert_by-Pairwise x (Pairwise.cons {a = y} {l = ys} below s) = elim (Bool-cases (before x y)) [
    | inl h ↦ rw h (
        Pairwise.cons (IsBelow-cons x y ys (yes x y h) (λ z m. trans x y z (yes x y h) (below z m)))
          (Pairwise.cons below s))
    | inr h ↦ rw h (
        Pairwise.cons
          (IsBelow-perm y _ (x ∷ ys) (insert_by-perm before x ys)
            (IsBelow-cons y x ys (no x y h) below))
          (insert_by-Pairwise x s))
  ]

  pub order_by-Pairwise : (l : List A) → Pairwise R (order_by before l)
  order_by-Pairwise [] = Pairwise.nil
  order_by-Pairwise (x ∷ xs) = insert_by-Pairwise x (order_by-Pairwise xs)
