-- ===== src/Common/Lists/Rows.antt =====
-- Finding a row after a table has been changed.
use go_bank.Common.{
  ◌≡◌, refl, ap, some_eq, Bool, true, false, none, some, List, [], ◌∷◌, ◌++◌, arith, Bool-cases,
  inl, inr, if◌then◌else◌,
}
use go_bank.Common.Lists.{find_row, is_found, has_row, update_row, deselect}

module _ {ℓ} {A : Type ℓ} (p : A → Bool) where
  pub find_row-holds : (xs : List A) (x : A) → find_row p xs ≡ some x → p x ≡ true
  find_row-holds [] x e = cc
  find_row-holds (y ∷ ys) x e = ground (arith, find_row-holds ys x)

  pub find_row-update_row_self :
      (xs : List A) (f : A → A) (x : A)
      → find_row p xs ≡ some x
      → p (f x) ≡ true
      → find_row p (update_row p f xs) ≡ some (f x)
  find_row-update_row_self [] f x e h = cc
  find_row-update_row_self (y ∷ ys) f x e h = elim (Bool-cases (p y)) [
    | inl hit ↦ ground arith
    | inr miss ↦ ground (arith, find_row-update_row_self ys f x)
  ]

  pub has_row_of_find : (xs : List A) (x : A) → find_row p xs ≡ some x → has_row p xs ≡ true
  has_row_of_find xs x e = ap is_found e

  pub has_row-append_last : (xs : List A) (x : A) → p x ≡ true → has_row p (xs ++ x ∷ []) ≡ true
  has_row-append_last [] x h = rw (h, has_row)
  has_row-append_last (y ∷ ys) x h = elim (Bool-cases (p y)) [
    | inl e ↦ rw (e, has_row)
    | inr e ↦ rw (e, has_row) (has_row-append_last ys x h)
  ]

  pub find_of_has_row : (xs : List A) → has_row p xs ≡ true → (x : A) × (find_row p xs ≡ some x)
  find_of_has_row [] h = cc
  find_of_has_row (y ∷ ys) h = elim (Bool-cases (p y)) [
    | inl e ↦ (y, rw e)
    | inr e ↦ rw e (find_of_has_row ys (rw (e, has_row) at h))
  ]

-- A row that another condition selects is not touched.
pub find_row-update_row_other {ℓ} :
    {A : Type ℓ} (p q : A → Bool) (f : A → A) (xs : List A)
    → ((x : A) → p x ≡ true → q x ≡ false)
    → ((x : A) → p x ≡ true → q (f x) ≡ false)
    → find_row q (update_row p f xs) ≡ find_row q xs
find_row-update_row_other p q f [] apart kept = refl
find_row-update_row_other p q f (x ∷ xs) apart kept = elim (Bool-cases (p x)) [
  | inl e ↦ rw (e, apart x e, kept x e)
  | inr e ↦
      rw e (ap (λ r. if q x then some x else r) (find_row-update_row_other p q f xs apart kept))
]

-- The rows that a condition selects are gone, and no others.
pub find_row-deselect {ℓ} :
    {A : Type ℓ} (p : A → Bool) (xs : List A) → find_row p (deselect p xs) ≡ none
find_row-deselect p [] = refl
find_row-deselect p (x ∷ xs) = elim (Bool-cases (p x)) [
  | inl hit ↦ rw hit (find_row-deselect p xs)
  | inr miss ↦ rw (miss, miss) (find_row-deselect p xs)
]

pub find_row-deselect_other {ℓ} :
    {A : Type ℓ} (p q : A → Bool) (xs : List A)
    → ((x : A) → p x ≡ true → q x ≡ false)
    → find_row q (deselect p xs) ≡ find_row q xs
find_row-deselect_other p q [] apart = refl
find_row-deselect_other p q (x ∷ xs) apart =
    let ih = find_row-deselect_other p q xs apart in
    elim (Bool-cases (p x)) [
      | inl hit ↦ rw (hit, apart x hit, find_row) ih
      | inr miss ↦ rw (miss, find_row, ih)
    ]

-- The row found is the one rewritten, where it stands.
pub update_row-split {ℓ} :
    {A : Type ℓ} (p : A → Bool) (f : A → A) (xs : List A) (x : A)
    → find_row p xs ≡ some x
    → (before : List A) × (after : List A) × (xs ≡ before ++ x ∷ after)
      × (update_row p f xs ≡ before ++ f x ∷ after)
update_row-split p f [] x h = cc
update_row-split p f (y ∷ ys) x h = elim (Bool-cases (p y)) [
  | inl hit ↦
      let same : y ≡ x = some_eq (rw hit at h) in
      ([], ys, ap (λ z. z ∷ ys) same, rw hit (ap (λ z. f z ∷ ys) same))
  | inr miss ↦
      let (before, after, split, rewritten) = update_row-split p f ys x (rw miss at h) in
      (y ∷ before, after, ap (◌∷◌ y) split, rw miss (ap (◌∷◌ y) rewritten))
]

module _ {A : Type 0} where
  -- What holds of every row.
  abbrev pub Each : (P : A → Type 0) → List A → Type 0
  Each P [] = Unit {0}
  Each P (x ∷ xs) = P x × Each P xs

  pub has_row-Each :
      (p : A → Bool) (P : A → Type 0) (xs : List A)
      → ((x : A) → p x ≡ false → P x)
      → has_row p xs ≡ false
      → Each P xs
  has_row-Each p P [] f h = tt
  has_row-Each p P (x ∷ xs) f h = elim (Bool-cases (p x)) [
    | inl hit ↦ let no : true ≡ false = rw (hit, has_row) at h in cc
    | inr miss ↦ (f x miss, has_row-Each p P xs f (rw (miss, has_row) at h))
  ]
