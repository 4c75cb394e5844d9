-- ===== src/Common/Lists.antt =====
-- Lists measured by native numbers, and the row operations that SQL statements are made of.
pub mod Rows
pub mod Order
use go_bank.Common.{
  ℕ, zero, suc, Bool, true, false, Option, none, some, List, [], ◌∷◌, if◌then◌else◌,
}

module _ {ℓ} {A : Type ℓ} where
  abbrev pub length : List A → ℕ
  length [] = 0
  length (x ∷ xs) = suc (length xs)

  abbrev pub take : ℕ → List A → List A
  take zero xs = []
  take (suc n) [] = []
  take (suc n) (x ∷ xs) = x ∷ take n xs

  abbrev pub drop : ℕ → List A → List A
  drop zero xs = xs
  drop (suc n) [] = []
  drop (suc n) (x ∷ xs) = drop n xs

  -- The first row that meets a condition.
  abbrev pub find_row : (A → Bool) → List A → Option A
  find_row p [] = none
  find_row p (x ∷ xs) = if p x then some x else find_row p xs

  abbrev pub is_found : Option A → Bool
  is_found none = false
  is_found (some _) = true

  -- Is there a row that meets a condition?
  abbrev pub has_row : (A → Bool) → List A → Bool
  has_row p xs = is_found (find_row p xs)

  -- Rewrites the row that meets a condition on a key, of which a table has one at most.
  abbrev pub update_row : (A → Bool) → (A → A) → List A → List A
  update_row p f [] = []
  update_row p f (x ∷ xs) = if p x then f x ∷ xs else x ∷ update_row p f xs

  abbrev pub filter_rows : (A → Bool) → List A → List A
  filter_rows p [] = []
  filter_rows p (x ∷ xs) = let rest = filter_rows p xs in if p x then x ∷ rest else rest

  abbrev pub insert_by : (A → A → Bool) → A → List A → List A
  insert_by before a [] = a ∷ []
  insert_by before a (x ∷ xs) = if before a x then a ∷ x ∷ xs else x ∷ insert_by before a xs

  -- `ORDER BY`, for the order in which `before a b` says that `a` may stand before `b`.
  abbrev pub order_by : (A → A → Bool) → List A → List A
  order_by before [] = []
  order_by before (x ∷ xs) = insert_by before x (order_by before xs)

  abbrev pub deselect : (A → Bool) → List A → List A
  deselect p [] = []
  deselect p (x ∷ xs) = let rest = deselect p xs in if p x then rest else x ∷ rest

abbrev cons_some {ℓ} : {B : Type ℓ} → Option B → List B → List B
cons_some none ys = ys
cons_some (some y) ys = y ∷ ys

-- The rows that an inner join keeps.
abbrev pub join_rows {ℓ κ} : {A : Type ℓ} {B : Type κ} → (A → Option B) → List A → List B
join_rows f [] = []
join_rows f (x ∷ xs) = cons_some (f x) (join_rows f xs)
