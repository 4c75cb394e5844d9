-- ===== src/Tests/Overdraft.antt =====
-- The calls of CreateTransfer that lose money of the small bank.
use go_bank.Common.{◌≡◌, ◌≢◌, refl, some, [], ◌∷◌, arith}
use go_bank.Common.Int.{ℤ, pos, negsuc, neg_int64, ◌+ℤ◌, ◌-ℤ◌, ◌<ℤ◌, min_int64}
use go_bank.Common.Lists.{find_row}
use go_bank.Util.Float.{Float64, float_to_cents}
use go_bank.Util.Currencies.{is_supported_currency}
use go_bank.Val.Validation.{fine, validate_id, validate_string, validate_amount, validate_currency}
use go_bank.Db.Models.{Account}
use go_bank.Db.World.{World, ok, exchange}
use go_bank.Db.Query.Page.{account_is}
use go_bank.Db.Query.Accounts.{add_account_balance}
use go_bank.Db.Query.Accounts as Query
use go_bank.Db.Query.Accounts.Credit.{total}
use go_bank.Db.Query.Entries.{create_transfer_entry}
use go_bank.Db.Query.Transfers
use go_bank.Db.Tx.Exec.{exec_tx}
use go_bank.Db.Tx.Transfer.{
  TransferTxResult, add_money, update_balances, transfer_body, transfer_tx,
}
use go_bank.Gapi.Transfers.{
  convert_transfer_result, validate_create_transfer_request, validate_transfer_account,
  check_transfer, commit_transfer, create_transfer,
}
use go_bank.Gapi.Transfers.Race.{concurrent_overdraft}
use go_bank.Gapi.Transfers.NotANumber.{create_transfer_nan}
use go_bank.Gapi.Guards.Transfers.{params, requested}
use go_bank.Tests.Data.{bank, alice_account, bob_account, server, as_alice, to_bob}

-- The n-th transfer of an amount from Alice to Bob, with the balances that it leaves.
abbrev moved : (n e f amount minus from to : ℤ) → TransferTxResult
moved n e f amount minus from to = record {
  transfer = record {
    id = n;
    from_account_id = pos 1;
    to_account_id = pos 2;
    amount = amount;
    created_at = 1000;
  };
  from_account = record alice_account { balance = from };
  to_account = record bob_account { balance = to };
  from_entry = record {
    id = e;
    amount = minus;
    account_id = pos 1;
    created_at = 1000;
    transfer_id = some n;
  };
  to_entry = record {
    id = f;
    amount = amount;
    account_id = pos 2;
    created_at = 1000;
    transfer_id = some n;
  };
}

-- 60.00 as a float64.
abbrev sixty : Float64
sixty = 4633641066610819072

abbrev first : TransferTxResult
first = moved (pos 1) (pos 1) (pos 2) (pos 6000) (negsuc 5999) (pos 4000) (pos 6500)

abbrev second : TransferTxResult
second = moved (pos 2) (pos 3) (pos 4) (pos 6000) (negsuc 5999) (negsuc 1999) (pos 12500)

abbrev between : World
between = record bank {
  tables = record (bank.tables) {
    accounts = first.from_account ∷ first.to_account ∷ [];
    entries = first.from_entry ∷ first.to_entry ∷ [];
    transfers = first.transfer ∷ [];
  };
  transfer_seq = 1;
  entry_seq = 2;
}

abbrev overdrawn : World
overdrawn = record bank {
  tables = record (bank.tables) {
    accounts = second.from_account ∷ second.to_account ∷ [];
    entries = first.from_entry ∷ first.to_entry ∷ second.from_entry ∷ second.to_entry ∷ [];
    transfers = first.transfer ∷ second.transfer ∷ [];
  };
  transfer_seq = 2;
  entry_seq = 4;
}

checked :
    check_transfer server as_alice (to_bob sixty) bank
    ≡ (ok (params (pos 6000) (to_bob sixty)), bank)
unfolding check_transfer validate_create_transfer_request validate_id validate_amount
    validate_currency validate_string is_supported_currency validate_transfer_account
    Query.get_account exchange float_to_cents
checked = refl

first_run :
    commit_transfer (params (pos 6000) (to_bob sixty)) bank
    ≡ (ok (convert_transfer_result first), between)
unfolding exchange commit_transfer transfer_tx exec_tx transfer_body Transfers.create_transfer
    create_transfer_entry neg_int64 update_balances add_money add_account_balance ◌+ℤ◌ ◌-ℤ◌
first_run = refl

second_run :
    commit_transfer (params (pos 6000) (to_bob sixty)) between
    ≡ (ok (convert_transfer_result second), overdrawn)
unfolding exchange commit_transfer transfer_tx exec_tx transfer_body Transfers.create_transfer
    create_transfer_entry neg_int64 update_balances add_money add_account_balance ◌+ℤ◌ ◌-ℤ◌
second_run = refl

not_least : requested server (to_bob sixty) ≢ min_int64
unfolding float_to_cents
not_least = cc

not_enough :
    alice_account.balance <ℤ requested server (to_bob sixty) +ℤ requested server (to_bob sixty)
unfolding float_to_cents ◌+ℤ◌
not_enough = ground arith

concurrent_overdraft_example :
    (b : Account) × (find_row (account_is (pos 1)) overdrawn.tables.accounts ≡ some b)
    × (b.balance <ℤ pos 0)
concurrent_overdraft_example =
    concurrent_overdraft server as_alice as_alice (to_bob sixty) (to_bob sixty) bank bank bank
      between overdrawn (params (pos 6000) (to_bob sixty)) (params (pos 6000) (to_bob sixty))
      (convert_transfer_result first) (convert_transfer_result second) alice_account checked checked
      first_run second_run refl not_least not_least refl not_enough

abbrev nan : Float64
nan = 9221120237041090560

abbrev lost : TransferTxResult
lost =
    moved (pos 1) (pos 1) (pos 2) min_int64 min_int64 (negsuc 9223372036854765807)
      (negsuc 9223372036854775307)

abbrev robbed : World
robbed = record bank {
  tables = record (bank.tables) {
    accounts = lost.from_account ∷ lost.to_account ∷ [];
    entries = lost.from_entry ∷ lost.to_entry ∷ [];
    transfers = lost.transfer ∷ [];
  };
  transfer_seq = 1;
  entry_seq = 2;
}

nan_run :
    create_transfer server as_alice (to_bob nan) bank ≡ (ok (convert_transfer_result lost), robbed)
unfolding create_transfer check_transfer validate_create_transfer_request validate_id
    validate_amount validate_currency validate_string is_supported_currency
    validate_transfer_account Query.get_account exchange float_to_cents commit_transfer transfer_tx
    exec_tx transfer_body Transfers.create_transfer create_transfer_entry neg_int64 update_balances
    add_money add_account_balance ◌+ℤ◌ ◌-ℤ◌
nan_run = refl

create_transfer_nan_example :
    (validate_amount nan ≡ fine)
    × (total robbed.tables.accounts ≡ total bank.tables.accounts +ℤ min_int64 +ℤ min_int64)
create_transfer_nan_example =
    create_transfer_nan server as_alice (to_bob nan) bank robbed refl refl nan_run
