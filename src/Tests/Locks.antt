-- ===== src/Tests/Locks.antt =====
-- Two transfers between the same accounts in opposite directions, one of which has its first lock.
use go_bank.Common.{ℕ, zero, suc, ◌≡◌, refl, [], ◌∷◌, arith}
use go_bank.Common.Int.{pos, ◌<ℤ◌}
use go_bank.Db.Tx.Transfer.{TransferTxParams}
use go_bank.Db.Tx.Locks.{
  running, Locks, acquired, Step, acquire, Reach, here, after, start, lock_order,
}
use go_bank.Db.Tx.Locks.Progress.{no_deadlock}

abbrev there_and_back : ℕ → TransferTxParams
there_and_back zero = record { from_account_id = pos 1; to_account_id = pos 2; amount = pos 100 }
there_and_back (suc i) = record { from_account_id = pos 2; to_account_id = pos 1; amount = pos 100 }

abbrev one_locked : Locks
one_locked = acquired (start there_and_back) 0 (pos 1) (pos 2 ∷ [])

one_reached : Reach (start there_and_back) one_locked
unfolding start lock_order
one_reached = after here (acquire 0 (pos 1) (pos 2 ∷ []) refl refl)

below_three :
    (j : ℕ)
    → ((there_and_back j).from_account_id <ℤ pos 3) × ((there_and_back j).to_account_id <ℤ pos 3)
below_three zero = (omega arith, omega arith)
below_three (suc j) = (omega arith, omega arith)

second_waits : one_locked.phase 1 ≡ running (pos 1 ∷ pos 2 ∷ [])
unfolding start lock_order
second_waits = refl

no_deadlock_example : (t : Locks) × Step one_locked t
no_deadlock_example =
    no_deadlock 3 there_and_back one_locked 1 (pos 1 ∷ pos 2 ∷ []) below_three one_reached
      second_waits
