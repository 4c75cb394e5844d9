-- ===== src/Tests/Calls.antt =====
-- Calls of the handlers on the small bank.
use go_bank.Common.{◌≡◌, ◌≢◌, refl, some, true, false, []}
use go_bank.Common.Int.{pos, neg_int64, ◌+ℤ◌, ◌-ℤ◌, ◌≤ℤ◌, min_int64, ltb_ℤ, in_int64}
use go_bank.Common.Lists.{find_row}
use go_bank.Util.Float.{Float64, float_to_cents}
use go_bank.Util.Currencies.{is_supported_currency}
use go_bank.Val.Validation.{validate_id, validate_string, validate_amount, validate_currency}
use go_bank.Db.Models.{Account}
use go_bank.Db.World.{World, ok, exchange}
use go_bank.Db.Query.Page.{account_is}
use go_bank.Db.Query.Accounts.{add_account_balance}
use go_bank.Db.Query.Accounts as Query
use go_bank.Db.Query.Accounts.Credit.{total}
use go_bank.Db.Query.Entries.{create_transfer_entry}
use go_bank.Db.Query.Transfers
use go_bank.Db.Tx.Exec.{exec_tx}
use go_bank.Db.Tx.Transfer.{add_money, update_balances, transfer_body, transfer_tx}
use go_bank.Db.Tx.Transfer.Money.{Shifted}
use go_bank.Gapi.Accounts.{
  convert_account, authorize_account, validate_id_request, get_account, create_account,
  update_account, delete_account,
}
use go_bank.Gapi.Guards.Accounts.{Owns, get_account-Owns}
use go_bank.Gapi.Transfers.{
  CreateTransferResponse, convert_transfer_result, validate_create_transfer_request,
  validate_transfer_account, check_transfer, commit_transfer, create_transfer,
}
use go_bank.Gapi.Transfers.Success.{create_transfer_succeeds}
use go_bank.Gapi.Transfers.Effect.{create_transfer-Shifted}
use go_bank.Gapi.Guards.Transfers.{Cleared, params, requested}
use go_bank.Db.Effects.{IsAtomic}
use go_bank.Gapi.Users.{create_user, update_user, verify_email}
use go_bank.Gapi.Sessions.{login_user}
use go_bank.Gapi.Effects.{writers-IsAtomic}
use go_bank.Tests.Transfers.{three_result, after_three}
use go_bank.Tests.Data.{
  bank, alice_account, bob_account, alice_payload, server, as_alice, to_bob, carol, renamed,
}

alice_answer : get_account as_alice (pos 1) bank ≡ (ok (convert_account alice_account), bank)
unfolding get_account validate_id_request validate_id authorize_account Query.get_account exchange
alice_answer = refl

get_account-Owns_example :
    (a : Account) × Owns as_alice (pos 1) bank.tables a
    × (convert_account alice_account ≡ convert_account a)
get_account-Owns_example =
    get_account-Owns as_alice (pos 1) bank bank (convert_account alice_account) alice_answer

-- 3.00 as a float64.
abbrev three : Float64
three = 4613937818241073152

checked :
    check_transfer server as_alice (to_bob three) bank
    ≡ (ok (params (pos 300) (to_bob three)), bank)
unfolding check_transfer validate_create_transfer_request validate_id validate_amount
    validate_currency validate_string is_supported_currency validate_transfer_account
    Query.get_account exchange float_to_cents
checked = refl

three_run :
    create_transfer server as_alice (to_bob three) bank
    ≡ (ok (convert_transfer_result three_result), after_three)
unfolding create_transfer check_transfer validate_create_transfer_request validate_id
    validate_amount validate_currency validate_string is_supported_currency
    validate_transfer_account Query.get_account exchange float_to_cents commit_transfer transfer_tx
    exec_tx transfer_body Transfers.create_transfer create_transfer_entry neg_int64 update_balances
    add_money add_account_balance ◌+ℤ◌ ◌-ℤ◌
three_run = refl

requested_amount : requested server (to_bob three) ≢ min_int64
unfolding float_to_cents
requested_amount = cc

create_transfer-Shifted_example :
    Cleared (requested server (to_bob three)) as_alice (to_bob three) bank.tables
    × Shifted
        (params (requested server (to_bob three)) (to_bob three))
        bank.tables.accounts
        after_three.tables.accounts
    × (total after_three.tables.accounts ≡ total bank.tables.accounts)
    × (b : Account) × (find_row (account_is (pos 1)) after_three.tables.accounts ≡ some b)
    × (pos 0 ≤ℤ b.balance)
create_transfer-Shifted_example =
    create_transfer-Shifted server as_alice (to_bob three) bank after_three requested_amount
      three_run

writers-IsAtomic_example :
    IsAtomic (create_user server carol)
    × IsAtomic (update_user server as_alice renamed)
    × IsAtomic (verify_email (pos 1) "alice")
    × IsAtomic (login_user server as_alice "alice" "alice")
    × IsAtomic (create_account as_alice "alice")
    × IsAtomic (update_account server as_alice (pos 1) three)
    × IsAtomic (delete_account as_alice (pos 1))
    × IsAtomic (create_transfer server as_alice (to_bob three))
writers-IsAtomic_example =
    writers-IsAtomic server as_alice (pos 1) "alice" "alice" three carol renamed (to_bob three)

valid_three : validate_create_transfer_request (to_bob three) ≡ []
unfolding validate_create_transfer_request validate_id validate_amount validate_currency
    validate_string is_supported_currency
valid_three = refl

covered_three : ltb_ℤ alice_account.balance (requested server (to_bob three)) ≡ false
unfolding float_to_cents
covered_three = refl

source_fits : in_int64 (alice_account.balance +ℤ neg_int64 (requested server (to_bob three))) ≡ true
unfolding float_to_cents neg_int64 ◌+ℤ◌ ◌-ℤ◌
source_fits = refl

target_fits : in_int64 (bob_account.balance +ℤ requested server (to_bob three)) ≡ true
unfolding float_to_cents ◌+ℤ◌
target_fits = refl

create_transfer_succeeds_example :
    (rsp : CreateTransferResponse) × (w' : World) × (create_transfer server as_alice
        (to_bob three)
        bank
      ≡ (ok rsp, w'))
create_transfer_succeeds_example =
    create_transfer_succeeds server as_alice (to_bob three) bank alice_payload alice_account
      bob_account valid_three refl refl refl refl refl refl covered_three source_fits target_fits
      refl
