-- ===== src/Db/Tx/Locks.antt =====
-- The row locks of concurrent transfers (db/sqlc/tx_transfer.go). Each UPDATE of TransferTx locks the row of
-- its account until the transaction ends; a transaction that finds the row locked by another waits. The
-- inserts before take shared key locks, which these updates do not conflict with.
pub mod Progress
pub mod Order
use go_bank.Common.{
  ℕ, Bool, true, false, Option, none, some, List, [], ◌∷◌, if◌then◌else◌, ◌==◌, ◌≡◌,
}
use go_bank.Common.Int.{ℤ, ltb_ℤ, eq_ℤ}
use go_bank.Db.Tx.Transfer.{TransferTxParams}

-- The accounts in the order in which a transfer updates them.
unfoldable pub lock_order : TransferTxParams → List ℤ
lock_order arg =
    if ltb_ℤ arg.from_account_id arg.to_account_id
    then arg.from_account_id ∷ arg.to_account_id ∷ []
    else arg.to_account_id ∷ arg.from_account_id ∷ []

-- A transaction has rows still to lock, or it has ended.
pub data Phase : Type 0 where
  running : List ℤ → Phase
  ended : Phase

-- The lock table says which transaction holds a row.
pub record Locks : Type 0 where
  pub owner : ℤ → Option ℕ
  pub phase : ℕ → Phase

abbrev pub is_free : Option ℕ → ℕ → Bool
is_free none i = true
is_free (some j) i = j == i

abbrev pub unless_held : ℕ → Option ℕ → Option ℕ
unless_held i none = none
unless_held i (some j) = if j == i then none else some j

abbrev pub acquired : Locks → (i : ℕ) (x : ℤ) (rest : List ℤ) → Locks
acquired s i x rest = record {
  owner = λ id. if eq_ℤ id x then some i else s.owner id;
  phase = λ j. if j == i then running rest else s.phase j;
}

abbrev pub released : Locks → ℕ → Locks
released s i = record {
  owner = λ id. unless_held i (s.owner id);
  phase = λ j. if j == i then ended else s.phase j;
}

-- A transaction locks its next row, if no other holds it, or it has all its locks, ends and drops them.
pub data Step : Locks → Locks → Type 0 where
  acquire :
      {s : Locks} (i : ℕ) (x : ℤ) (rest : List ℤ)
      → s.phase i ≡ running (x ∷ rest)
      → is_free (s.owner x) i ≡ true
      → Step s (acquired s i x rest)
  finish : {s : Locks} (i : ℕ) → s.phase i ≡ running [] → Step s (released s i)

-- Any number of transfers, none of which has locked a row.
unfoldable pub start : (ℕ → TransferTxParams) → Locks
unfolding lock_order
start args = record { owner = λ id. none; phase = λ i. running (lock_order (args i)) }

pub data Reach (s : Locks) : Locks → Type 0 where
  here : Reach s s
  after : {t u : Locks} → Reach s t → Step t u → Reach s u
