-- ===== src/Tests/Transfers.antt =====
-- Transfers of the small bank.
use go_bank.Common.{◌≡◌, ◌≢◌, refl, true, false, some, [], ◌∷◌, arith}
use go_bank.Common.Int.{pos, negsuc, neg_int64, ◌+ℤ◌, ◌-ℤ◌, min_int64}
use go_bank.Db.Models.{Account}
use go_bank.Db.World.{World, ok, err, exchange, unavailable}
use go_bank.Db.Success.{Runs}
use go_bank.Db.Query.Accounts.{add_account_balance}
use go_bank.Db.Query.Accounts.Credit.{total}
use go_bank.Db.Query.Entries.{create_transfer_entry}
use go_bank.Db.Query.Transfers.{create_transfer}
use go_bank.Db.Tx.Exec.{exec_tx, exec_tx-atomic}
use go_bank.Db.Tx.Transfer.{
  TransferTxParams, TransferTxResult, add_money, update_balances, transfer_body, transfer_tx,
}
use go_bank.Db.Tx.Transfer.Money.{Shifted, transfer_tx-total, transfer_tx-Shifted}
use go_bank.Db.Tx.Transfer.Books.{Booked, transfer_tx-Booked}
use go_bank.Db.Tx.Transfer.Success.{Ready, transfer_tx-Runs}
use go_bank.Tests.Data.{bank, alice_account, bob_account}

abbrev pub three_dollars : TransferTxParams
three_dollars = record { from_account_id = pos 1; to_account_id = pos 2; amount = pos 300 }

abbrev poorer : Account
poorer = record alice_account { balance = pos 9700 }

abbrev richer : Account
richer = record bob_account { balance = pos 800 }

abbrev pub three_result : TransferTxResult
three_result = record {
  transfer = record {
    id = pos 1;
    from_account_id = pos 1;
    to_account_id = pos 2;
    amount = pos 300;
    created_at = 1000;
  };
  from_account = poorer;
  to_account = richer;
  from_entry = record {
    id = pos 1;
    amount = negsuc 299;
    account_id = pos 1;
    created_at = 1000;
    transfer_id = some (pos 1);
  };
  to_entry = record {
    id = pos 2;
    amount = pos 300;
    account_id = pos 2;
    created_at = 1000;
    transfer_id = some (pos 1);
  };
}

abbrev pub after_three : World
after_three = record bank {
  tables = record (bank.tables) {
    accounts = poorer ∷ richer ∷ [];
    entries = three_result.from_entry ∷ three_result.to_entry ∷ [];
    transfers = three_result.transfer ∷ [];
  };
  transfer_seq = 1;
  entry_seq = 2;
}

three_run : transfer_tx three_dollars bank ≡ (ok three_result, after_three)
unfolding transfer_tx exec_tx exchange transfer_body create_transfer create_transfer_entry neg_int64
    update_balances add_money add_account_balance ◌+ℤ◌ ◌-ℤ◌
three_run = refl

pub not_least : three_dollars.amount ≢ min_int64
not_least = cc

pub apart : three_dollars.from_account_id ≢ three_dollars.to_account_id
apart e = ground arith

three_Ready : Ready three_dollars alice_account bob_account bank
unfolding neg_int64 ◌+ℤ◌ ◌-ℤ◌
three_Ready = record {
  quiet = refl;
  apart = λ e. ground arith;
  from_found = refl;
  to_found = refl;
  from_fits = refl;
  to_fits = refl;
}

transfer_tx-total_example : total after_three.tables.accounts ≡ total bank.tables.accounts
transfer_tx-total_example =
    transfer_tx-total three_dollars bank after_three three_result not_least three_run

transfer_tx-Shifted_example : Shifted three_dollars bank.tables.accounts after_three.tables.accounts
transfer_tx-Shifted_example =
    transfer_tx-Shifted three_dollars bank after_three three_result apart not_least three_run

transfer_tx-Booked_example : Booked three_dollars three_result bank.tables after_three.tables
transfer_tx-Booked_example =
    transfer_tx-Booked three_dollars bank after_three three_result not_least three_run

transfer_tx-Runs_example : Runs (transfer_tx three_dollars) bank
transfer_tx-Runs_example = transfer_tx-Runs three_dollars alice_account bob_account bank three_Ready

-- The connection fails at the update of the second balance.
abbrev lossy : World
lossy = record bank { faults = false ∷ false ∷ false ∷ false ∷ false ∷ true ∷ [] }

abbrev after_loss : World
after_loss = record bank { transfer_seq = 1; entry_seq = 2 }

loss_run : exec_tx (transfer_body three_dollars) lossy ≡ (err unavailable, after_loss)
unfolding transfer_tx exec_tx exchange transfer_body create_transfer create_transfer_entry neg_int64
    update_balances add_money add_account_balance ◌+ℤ◌ ◌-ℤ◌
loss_run = refl

exec_tx-atomic_example : after_loss.tables ≡ lossy.tables
exec_tx-atomic_example = exec_tx-atomic (transfer_body three_dollars) lossy after_loss loss_run
