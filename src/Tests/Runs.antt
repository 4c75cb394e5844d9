-- ===== src/Tests/Runs.antt =====
-- Sequences of calls on the small bank.
use go_bank.Common.{◌≡◌, refl, ap, Option, none, some, List, [], ◌∷◌}
use go_bank.Common.Int.{ℤ, pos, neg_int64, ◌+ℤ◌, ◌-ℤ◌, int_laws}
use go_bank.Util.Float.{float_to_cents}
use go_bank.Util.Currencies.{is_supported_currency}
use go_bank.Val.Validation.{validate_id, validate_string, validate_amount, validate_currency}
use go_bank.Db.World.{exchange}
use go_bank.Db.Query.Accounts as Query
use go_bank.Db.Query.Accounts.{add_account_balance}
use go_bank.Db.Query.Entries.{create_transfer_entry}
use go_bank.Db.Query.Transfers
use go_bank.Db.Tx.Exec.{exec_tx}
use go_bank.Db.Tx.Transfer.{add_money, update_balances, transfer_body, transfer_tx}
use go_bank.Gapi.Transfers.{
  validate_create_transfer_request, validate_transfer_account, check_transfer, commit_transfer,
  create_transfer,
}
use go_bank.Gapi.Transfers.Refinement.{Call, AreExact, balances, moved_all, run, run-moved_all}
use go_bank.Gapi.Transfers.Ledger.{IsReconciled, plus, run-IsReconciled}
use go_bank.Tests.Data.{bank, server, as_alice, to_bob}
use go_bank.Tests.Transfers.{three_dollars}

-- 3.00, and then 1000.00, which the source does not cover.
abbrev calls : List Call
calls =
    record { ctx = as_alice; req = to_bob 4613937818241073152 }
    ∷ record { ctx = as_alice; req = to_bob 4652007308841189376 }
    ∷ []

calls-AreExact : AreExact server calls
unfolding float_to_cents
calls-AreExact = (cc, (cc, tt))

one_passes : (run server calls bank).1 ≡ three_dollars ∷ []
unfolding run create_transfer check_transfer validate_create_transfer_request validate_id
    validate_amount validate_currency validate_string is_supported_currency
    validate_transfer_account Query.get_account exchange float_to_cents commit_transfer transfer_tx
    exec_tx transfer_body Transfers.create_transfer create_transfer_entry neg_int64 update_balances
    add_money add_account_balance ◌+ℤ◌ ◌-ℤ◌
one_passes = refl

run-moved_all_example :
    balances (run server calls bank).0.tables
    ≡ moved_all (run server calls bank).1 (balances bank.tables)
run-moved_all_example = run-moved_all server calls bank calls-AreExact

-- The balances that the accounts of the small bank opened with: they have no entries yet.
abbrev opening : ℤ → Option ℤ
opening = balances bank.tables

opened-IsReconciled : IsReconciled opening bank.tables
opened-IsReconciled = record { account = λ id. as_opened (balances bank.tables id) }
  where
    as_opened : (o : Option ℤ) → o ≡ plus (pos 0) o
    as_opened none = refl
    as_opened (some b) = ap some (omega int_laws)

run-IsReconciled_example : IsReconciled opening (run server calls bank).0.tables
run-IsReconciled_example =
    run-IsReconciled opening server calls bank calls-AreExact opened-IsReconciled
