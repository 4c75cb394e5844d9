-- ===== src/Db/Tx/Locks/Progress.antt =====
-- Transfers never wait for one another in a circle.
use go_bank.Common.{
  ℕ, zero, suc, ◌+◌, true, false, Option, none, some, List, [], ◌∷◌, if◌then◌else◌, ◌==◌, ◌≡◌, ap,
  sym, ◌∙◌, Bool-cases, Option-cases, inl, inr, arith, some_eq,
}
use mathlib.Core.Path.{subst}
use go_bank.Common.Int.{ℤ, pos, neg_part, ◌≤ℤ◌, ◌<ℤ◌, ◌+ℤ◌, ltb_ℤ, eq_ℤ, eq_ℤ-iff, int_laws}
use go_bank.Db.Tx.Transfer.{TransferTxParams}
use go_bank.Db.Tx.Locks.{
  lock_order, Phase, running, ended, Locks, is_free, unless_held, acquired, released, Step, acquire,
  finish, start, Reach, here, after,
}

-- The first of some rows does not come before an account.
abbrev Ahead : ℤ → List ℤ → Type 0
Ahead id [] = Unit {0}
Ahead id (x ∷ xs) = id ≤ℤ x

abbrev Rising : List ℤ → Type 0
Rising [] = Unit {0}
Rising (x ∷ xs) = Ahead x xs × Rising xs

abbrev Below : ℕ → List ℤ → Type 0
Below bound [] = Unit {0}
Below bound (x ∷ xs) = (x <ℤ pos bound) × Below bound xs

-- Each transaction locks its rows in rising order, and what it holds does not come after what it wants.
record IsOrdered (bound : ℕ) (s : Locks) : Type 0 where
  rising : (i : ℕ) (todo : List ℤ) → s.phase i ≡ running todo → Rising todo × Below bound todo
  ahead :
      (id : ℤ) (i : ℕ)
      → s.owner id ≡ some i
      → (todo : List ℤ) × (s.phase i ≡ running todo) × Ahead id todo

todo_of : Phase → List ℤ
todo_of (running todo) = todo
todo_of ended = []

running_eq : {a b : List ℤ} → running a ≡ running b → a ≡ b
unfolding todo_of
running_eq h = ap todo_of h

same_index : (j i : ℕ) → (j == i) ≡ true → j ≡ i
same_index j i h = ground arith

own_index : (i : ℕ) → (i == i) ≡ true
own_index i = ground arith

Ahead-after : (id x : ℤ) (rest : List ℤ) → id ≤ℤ x → Ahead x rest → Ahead id rest
Ahead-after id x [] h k = tt
Ahead-after id x (y ∷ ys) h k = omega (arith)

module _ (bound : ℕ) (s : Locks) (inv : IsOrdered bound s) (i : ℕ) where
  module _ (x : ℤ) (rest : List ℤ) (at : s.phase i ≡ running (x ∷ rest)) where
    acquired-Rising :
        (j : ℕ) (todo : List ℤ)
        → (if j == i then running rest else s.phase j) ≡ running todo
        → Rising todo × Below bound todo
    acquired-Rising j todo = elim (Bool-cases (j == i)) [
      | inl e ↦ λ h.
          let ((_, up), (_, low)) = inv.rising i (x ∷ rest) at in
          subst (λ t. Rising t × Below bound t) (running_eq (rw e at h)) (up, low)
      | inr n ↦ λ h. inv.rising j todo (rw n at h)
    ]

    acquired-Ahead :
        (id : ℤ) (j : ℕ)
        → (if eq_ℤ id x then some i else s.owner id) ≡ some j
        → (todo : List ℤ) × ((if j == i then running rest else s.phase j) ≡ running todo)
          × Ahead id todo
    acquired-Ahead id j = elim (Bool-cases (eq_ℤ id x)) [
      | inl e ↦ λ h.
          let me : i ≡ j = some_eq (rw e at h) in
          (
            rest,
            ap (λ b. if b then running rest else s.phase j)
                (subst (λ k. (k == i) ≡ true) me (own_index i)),
            subst (λ y. Ahead y rest) (sym ((eq_ℤ-iff id x).0 e)) (inv.rising i (x ∷ rest) at).0.0,
          )
      | inr n ↦ λ h.
          let held : s.owner id ≡ some j = rw n at h in
          elim (Bool-cases (j == i)) [
            | inl e ↦
                let mine = subst (λ k. s.owner id ≡ some k) (same_index j i e) held in
                let (todo, phase, before) = inv.ahead id i mine in
                let first : Ahead id (x ∷ rest) =
                  subst (Ahead id) (running_eq (sym phase ∙ at)) before in
                (
                  rest,
                  ap (λ b. if b then running rest else s.phase j) e,
                  Ahead-after id x rest first (inv.rising i (x ∷ rest) at).0.0,
                )
            | inr m ↦
                let (todo, phase, before) = inv.ahead id j held in
                (todo, ap (λ b. if b then running rest else s.phase j) m ∙ phase, before)
          ]
    ]

    acquired-IsOrdered : IsOrdered bound (acquired s i x rest)
    acquired-IsOrdered = record { rising = acquired-Rising; ahead = acquired-Ahead }

  released-Rising :
      (j : ℕ) (todo : List ℤ)
      → (if j == i then ended else s.phase j) ≡ running todo
      → Rising todo × Below bound todo
  released-Rising j todo = elim (Bool-cases (j == i)) [
    | inl e ↦ λ h. let no : ended ≡ running todo = rw e at h in cc
    | inr n ↦ λ h. inv.rising j todo (rw n at h)
  ]

  still_held : (o : Option ℕ) (j : ℕ) → unless_held i o ≡ some j → (o ≡ some j) × ((j == i) ≡ false)
  still_held none j = λ h. let no : none ≡ some j = h in cc
  still_held (some k) j = elim (Bool-cases (k == i)) [
    | inl e ↦ λ h. let no : none ≡ some j = rw e at h in cc
    | inr n ↦ λ h.
        let same : some k ≡ some j = rw n at h in
        (same, subst (λ m. (m == i) ≡ false) (some_eq same) n)
  ]

  released-Ahead :
      (id : ℤ) (j : ℕ)
      → unless_held i (s.owner id) ≡ some j
      → (todo : List ℤ) × ((if j == i then ended else s.phase j) ≡ running todo) × Ahead id todo
  released-Ahead id j h =
      let (held, other) = still_held (s.owner id) j h in
      let (todo, phase, before) = inv.ahead id j held in
      (todo, ap (λ b. if b then ended else s.phase j) other ∙ phase, before)

  released-IsOrdered : IsOrdered bound (released s i)
  released-IsOrdered = record { rising = released-Rising; ahead = released-Ahead }

Step-IsOrdered : (bound : ℕ) (s t : Locks) → IsOrdered bound s → Step s t → IsOrdered bound t
Step-IsOrdered bound s _ inv (acquire i x rest at free) = acquired-IsOrdered bound s inv i x rest at
Step-IsOrdered bound s _ inv (finish i at) = released-IsOrdered bound s inv i

Reach-IsOrdered : (bound : ℕ) (s t : Locks) → IsOrdered bound s → Reach s t → IsOrdered bound t
Reach-IsOrdered bound s _ inv here = inv
Reach-IsOrdered bound s u inv (after {t} r step) =
    Step-IsOrdered bound t u (Reach-IsOrdered bound s t inv r) step

lock_order-Rising :
    (bound : ℕ) (arg : TransferTxParams)
    → arg.from_account_id <ℤ pos bound
    → arg.to_account_id <ℤ pos bound
    → Rising (lock_order arg) × Below bound (lock_order arg)
unfolding lock_order
lock_order-Rising bound arg h k = elim (Bool-cases (ltb_ℤ arg.from_account_id arg.to_account_id)) [
  | inl e ↦ rw e ((ground arith, (tt, tt)), (h, (k, tt)))
  | inr n ↦ rw n ((ground arith, (tt, tt)), (k, (h, tt)))
]

-- Some transaction can move.
abbrev pub Moves : Locks → Type 0
Moves s = (t : Locks) × Step s t

module _ (bound : ℕ) (s : Locks) (inv : IsOrdered bound s) where
  -- The holder of a row can move, or it wants a row that comes later.
  holder :
      (x : ℤ) (q : ℕ) (todo : List ℤ)
      → s.owner x ≡ some q
      → s.phase q ≡ running todo
      → Ahead x todo
      → ((y : ℤ) (ys : List ℤ) → s.phase q ≡ running (y ∷ ys) → x <ℤ y → Moves s)
      → Moves s
  holder x q [] held at before go_on = (_, finish q at)
  holder x q (y ∷ ys) held at before go_on = elim (Bool-cases (eq_ℤ x y)) [
    | inl e ↦ (
      _,
      acquire q y ys at (
          ap (λ id. is_free (s.owner id) q) (sym ((eq_ℤ-iff x y).0 e))
          ∙ ap (λ o. is_free o q) held
          ∙ own_index q),
    )
    | inr n ↦ go_on y ys at (ground arith)
  ]

  waits :
      (i : ℕ) (x : ℤ) (rest : List ℤ)
      → s.phase i ≡ running (x ∷ rest)
      → ((q : ℕ) (y : ℤ) (ys : List ℤ) → s.phase q ≡ running (y ∷ ys) → x <ℤ y → Moves s)
      → Moves s
  waits i x rest at go_on = elim (Option-cases (s.owner x)) [
    | inl e ↦ (_, acquire i x rest at (ap (λ o. is_free o i) e))
    | inr (q, e) ↦
        let (todo, phase, before) = inv.ahead x q e in holder x q todo e phase before (go_on q)
  ]

  -- Each row on the way comes later than the one before, and no row is past the bound.
  follow :
      (fuel i : ℕ) (x : ℤ) (rest : List ℤ)
      → s.phase i ≡ running (x ∷ rest)
      → pos bound ≤ℤ x +ℤ pos fuel
      → Moves s
  follow zero i x rest at far =
      let low : x <ℤ pos bound = (inv.rising i (x ∷ rest) at).1.0 in absurd (omega int_laws)
  follow (suc fuel) i x rest at far =
      waits i x rest at λ q y ys wants later. follow fuel q y ys wants (omega int_laws)

  moves : (i : ℕ) (todo : List ℤ) → s.phase i ≡ running todo → Moves s
  moves i [] at = (_, finish i at)
  moves i (x ∷ rest) at = follow (bound + neg_part x) i x rest at (omega int_laws)

start-IsOrdered :
    (bound : ℕ) (args : ℕ → TransferTxParams)
    → ((i : ℕ) → ((args i).from_account_id <ℤ pos bound) × ((args i).to_account_id <ℤ pos bound))
    → IsOrdered bound (start args)
unfolding start
start-IsOrdered bound args low = record {
  rising = λ i todo at.
      subst (λ t. Rising t × Below bound t) (running_eq at)
        (lock_order-Rising bound (args i) (low i).0 (low i).1);
  ahead = λ id i h. let no : none ≡ some i = h in cc;
}

-- Transfers never deadlock. Whatever rows any number of concurrent transfers have locked so far, each in the order in which
-- TransferTx updates the balances, as long as one of them has not ended some transfer can go on: it
-- can lock its next row, or end and drop its locks. The account ids are below a bound.
pub no_deadlock :
    (bound : ℕ) (args : ℕ → TransferTxParams) (s : Locks) (i : ℕ) (todo : List ℤ)
    → ((j : ℕ) → ((args j).from_account_id <ℤ pos bound) × ((args j).to_account_id <ℤ pos bound))
    → Reach (start args) s
    → s.phase i ≡ running todo
    → (t : Locks) × Step s t
no_deadlock bound args s i todo low reached at =
    moves bound s (Reach-IsOrdered bound (start args) s (start-IsOrdered bound args low) reached) i
      todo at
