-- ===== src/Tests/Pages.antt =====
-- Pages of the accounts of the small bank.
use go_bank.Common.{◌*◌, ◌≡◌, refl, some, List, [], ◌∷◌, map, arith}
use go_bank.Common.Int.{pos, ◌-ℤ◌, ◌*ℤ◌, wrap_int32}
use go_bank.Common.Lists.{take, drop}
use go_bank.Val.Validation.{validate_page_id, validate_page_size}
use go_bank.Db.Models.{Account}
use go_bank.Token.Payload.{Payload}
use go_bank.Db.World.{ok, err, exchange}
use go_bank.Db.Query.Page.{page_rows}
use go_bank.Db.Query.Accounts as Query
use go_bank.Gapi.Status.{status, internal}
use go_bank.Gapi.Accounts.{
  convert_account, validate_list_accounts_request, page_offset, list_accounts,
}
use go_bank.Gapi.Accounts.Paging.{InOrder, list_accounts_page, list_accounts_overflow}
use go_bank.Tests.Data.{bank, alice_account, alice_payload, as_alice}

page_run :
    list_accounts as_alice (pos 1) (pos 5) bank ≡ (ok (convert_account alice_account ∷ []), bank)
unfolding list_accounts validate_list_accounts_request validate_page_id validate_page_size
    page_offset wrap_int32 ◌-ℤ◌ ◌*ℤ◌ Query.list_accounts page_rows exchange
page_run = refl

list_accounts_page_example :
    (p : Payload) × (all : List Account) × (as_alice.auth_payload ≡ some p)
    × InOrder p.username bank.tables.accounts all
    × ((convert_account alice_account ∷ []) ≡ map convert_account (take 5 (drop (0 * 5) all)))
list_accounts_page_example =
    list_accounts_page as_alice 0 5 bank bank (omega arith) (omega arith) page_run

valid_page : validate_list_accounts_request (pos 21474838) (pos 100) ≡ []
unfolding validate_list_accounts_request validate_page_id validate_page_size
valid_page = refl

list_accounts_overflow_example :
    list_accounts as_alice (pos 21474838) (pos 100) bank ≡ (err (status internal), bank)
list_accounts_overflow_example =
    list_accounts_overflow as_alice 21474837 100 bank alice_payload (omega arith) (omega arith)
      (omega arith) valid_page refl refl
