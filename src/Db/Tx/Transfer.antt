-- ===== src/Db/Tx/Transfer.antt =====
-- `Store.TransferTx` and `addMoney` (db/sqlc/tx_transfer.go).
pub mod Steps
pub mod Money
pub mod Books
pub mod Success
use go_bank.Common.{some, if◌then◌else◌}
use go_bank.Common.Int.{ℤ, ltb_ℤ, neg_int64}
use go_bank.Db.Models.{Account, Entry, Transfer}
use go_bank.Db.World.{Action, DbError, pure, ◌>>=◌}
use go_bank.Db.Query.Accounts.{add_account_balance}
use go_bank.Db.Query.Entries.{create_transfer_entry}
use go_bank.Db.Query.Transfers.{create_transfer}
use go_bank.Db.Tx.Exec.{exec_tx}

pub record TransferTxParams : Type 0 where
  pub from_account_id : ℤ
  pub to_account_id : ℤ
  pub amount : ℤ

pub record TransferTxResult : Type 0 where
  pub transfer : Transfer
  pub from_account : Account
  pub to_account : Account
  pub from_entry : Entry
  pub to_entry : Entry

unfoldable pub add_money :
    (account_id1 amount1 account_id2 amount2 : ℤ) → Action DbError (Account × Account)
add_money account_id1 amount1 account_id2 amount2 = do
  account1 ← add_account_balance (record { amount = amount1; id = account_id1 })
  account2 ← add_account_balance (record { amount = amount2; id = account_id2 })
  pure (account1, account2)

abbrev pub swap_pair : Account × Account → Action DbError (Account × Account)
swap_pair (a, b) = pure (b, a)

-- The balances are updated in the order of the ids; the source's account comes first in the result.
unfoldable pub update_balances : TransferTxParams → Action DbError (Account × Account)
update_balances arg =
    if ltb_ℤ arg.from_account_id arg.to_account_id
    then add_money arg.from_account_id (neg_int64 arg.amount) arg.to_account_id arg.amount
    else (add_money arg.to_account_id arg.amount arg.from_account_id (neg_int64 arg.amount)
        >>= swap_pair)

-- The function that TransferTx hands to execTx.
unfoldable pub transfer_body : TransferTxParams → Action DbError TransferTxResult
transfer_body arg = do
  transfer ← create_transfer (record {
    from_account_id = arg.from_account_id;
    to_account_id = arg.to_account_id;
    amount = arg.amount;
  })
  from_entry ← create_transfer_entry (record {
    account_id = arg.from_account_id;
    amount = neg_int64 arg.amount;
    transfer_id = some transfer.id;
  })
  to_entry ← create_transfer_entry (record {
    account_id = arg.to_account_id;
    amount = arg.amount;
    transfer_id = some transfer.id;
  })
  accounts ← update_balances arg
  pure (record {
    transfer = transfer;
    from_account = accounts.0;
    to_account = accounts.1;
    from_entry = from_entry;
    to_entry = to_entry;
  })

unfoldable pub transfer_tx : TransferTxParams → Action DbError TransferTxResult
transfer_tx arg = exec_tx (transfer_body arg)
