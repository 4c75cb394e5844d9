-- ===== src/Db/Tx/Locks/Order.antt =====
-- The updates of TransferTx lock the rows in the order of `lock_order`.
use go_bank.Common.{◌≡◌, refl, [], ◌∷◌, Bool-cases, inl, inr}
use go_bank.Common.Int.{ltb_ℤ, neg_int64}
use go_bank.Db.Models.{Account}
use go_bank.Db.World.{World, Action, DbError, Result, ok, err, bind_result, pure, ◌>>=◌}
use go_bank.Db.Query.Accounts.{AddAccountBalanceParams, add_account_balance}
use go_bank.Db.Tx.Transfer.{TransferTxParams, add_money, swap_pair, update_balances}
use go_bank.Db.Tx.Locks.{lock_order}

-- Two updates, one after the other, and what is returned of their rows.
abbrev pub two_updates :
    (first second : AddAccountBalanceParams)
    → (Account → Account → Account × Account)
    → Action DbError (Account × Account)
two_updates first second pair = do
  a ← add_account_balance first
  b ← add_account_balance second
  pure (pair a b)

abbrev swapped : Account → Account → Account × Account
swapped a b = (b, a)

abbrev in_turn : Account → Account → Account × Account
in_turn a b = (a, b)

second_swapped :
    (r : Result DbError Account) (a : Account) (w : World)
    → bind_result swap_pair
        (bind_result (λ b. pure (in_turn a b)) r w).0
        (bind_result (λ b. pure (in_turn a b)) r w).1
      ≡ bind_result (λ b. pure (swapped a b)) r w
second_swapped (ok b) a w = refl
second_swapped (err e) a w = refl

first_swapped :
    (second : AddAccountBalanceParams) (r : Result DbError Account) (w : World)
    → (let (x, v) = bind_result (λ a. add_account_balance second >>= λ b. pure (in_turn a b)) r w in
        bind_result swap_pair x v)
      ≡ bind_result (λ a. add_account_balance second >>= λ b. pure (swapped a b)) r w
first_swapped second (ok a) w =
    second_swapped (add_account_balance second w).0 a (add_account_balance second w).1
first_swapped second (err e) w = refl

-- The balance updates of a transfer are two updates of single rows, one after the other, on the accounts of
-- `lock_order` in that order.
pub update_balances-lock_order :
    (arg : TransferTxParams) (w : World)
    → (first : AddAccountBalanceParams) × (second : AddAccountBalanceParams) × (pair : Account
        → Account
        → Account × Account)
      × (lock_order arg ≡ first.id ∷ second.id ∷ [])
      × (update_balances arg w ≡ two_updates first second pair w)
unfolding lock_order update_balances add_money
update_balances-lock_order arg w =
    let out : AddAccountBalanceParams = record {
      amount = neg_int64 arg.amount;
      id = arg.from_account_id;
    } in
    let into : AddAccountBalanceParams = record { amount = arg.amount; id = arg.to_account_id } in
    elim (Bool-cases (ltb_ℤ arg.from_account_id arg.to_account_id)) [
      | inl e ↦ (out, into, in_turn, rw e refl, rw e refl)
      | inr n ↦ (
        into,
        out,
        swapped,
        rw n refl,
        rw n (first_swapped out (add_account_balance into w).0 (add_account_balance into w).1),
      )
    ]
