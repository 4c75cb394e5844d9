-- ===== src/Api/Accounts.antt =====
-- api/account.go, with the JSON of its answers (db/sqlc/account_json.go).
use go_bank.Common.{Bool, not, ◌&&◌, Option, some, List, map, String, str_eq}
use go_bank.Common.Int.{ℤ, pos}
use go_bank.Util.Float.{Float64, float_to_cents}
use go_bank.Db.Json.{AccountJson, account_json}
use go_bank.Db.Models.{Account}
use go_bank.Db.World.{
  DbError, pg_code, PgCode, foreign_key_violation, unique_violation, pure, or_else, ◌>>=◌, ◌>>◌,
}
use go_bank.Db.Query.Accounts
use go_bank.Gapi.Accounts.{page_offset}
use go_bank.Api.Status.{
  HttpStatus, Handler, forbidden, internal_server_error, abort_if, not_found_or_500, any_500,
}
use go_bank.Api.Binding.{Validator, valid_currency, should_bind}
use go_bank.Api.Server.{Server, GinContext, must_get}

pub record CreateAccountRequest : Type 0 where
  pub currency : String

unfoldable pub create_account_tags : Validator → CreateAccountRequest → Bool
create_account_tags v req = v.required_text req.currency && valid_currency req.currency

abbrev pub account_code : Option PgCode → HttpStatus
account_code (some foreign_key_violation) = forbidden
account_code (some unique_violation) = forbidden
account_code _ = internal_server_error

abbrev pub create_account_error : DbError → HttpStatus
create_account_error e = account_code (pg_code e)

unfoldable pub create_account :
    Server → GinContext → Option CreateAccountRequest → Handler AccountJson
create_account server ctx body = do
  req ← should_bind body (create_account_tags server.libraries.validator)
  auth_payload ← must_get ctx
  account ←
      or_else
        (Accounts.create_account
          (record { owner = auth_payload.username; balance = pos 0; currency = req.currency }))
        create_account_error
  pure (account_json account)

-- The path of the requests for one account.
pub record IdRequest : Type 0 where
  pub id : ℤ

unfoldable pub id_tags : Validator → IdRequest → Bool
id_tags v req = v.required_int req.id && v.min_int (pos 1) req.id

-- GetAccount and the comparison of its owner with the caller, as three handlers make it.
unfoldable pub fetch_owned : GinContext → (id : ℤ) → Handler Account
fetch_owned ctx id = do
  account ← or_else (Accounts.get_account id) not_found_or_500
  auth_payload ← must_get ctx
  abort_if (not (str_eq account.owner auth_payload.username)) forbidden
  pure account

unfoldable pub get_account : Server → GinContext → Option IdRequest → Handler AccountJson
get_account server ctx uri = do
  req ← should_bind uri (id_tags server.libraries.validator)
  account ← fetch_owned ctx req.id
  pure (account_json account)

pub record ListAccountsRequest : Type 0 where
  pub page_id : ℤ
  pub page_size : ℤ

unfoldable pub list_accounts_tags : Validator → ListAccountsRequest → Bool
list_accounts_tags v req =
    (v.required_int req.page_id && v.min_int (pos 1) req.page_id)
    && (v.required_int req.page_size
        && v.min_int (pos 1) req.page_size
        && v.max_int (pos 100) req.page_size)

-- The offset is the int32 product that gapi computes too.
unfoldable pub list_accounts :
    Server → GinContext → Option ListAccountsRequest → Handler (List AccountJson)
list_accounts server ctx query = do
  req ← should_bind query (list_accounts_tags server.libraries.validator)
  auth_payload ← must_get ctx
  accounts ←
      or_else
        (Accounts.list_accounts (record {
          owner = auth_payload.username;
          limit = req.page_size;
          offset = page_offset req.page_id req.page_size;
        }))
        any_500
  pure (map account_json accounts)

pub record UpdateAccountJson : Type 0 where
  pub balance : Float64

unfoldable pub update_account_tags : Validator → UpdateAccountJson → Bool
update_account_tags v req = v.required_float req.balance && v.gte_zero req.balance

-- The body is bound after the owner is known.
unfoldable pub update_account :
    Server → GinContext → Option IdRequest → Option UpdateAccountJson → Handler AccountJson
update_account server ctx uri body = do
  uri_req ← should_bind uri (id_tags server.libraries.validator)
  fetch_owned ctx uri_req.id
  json_req ← should_bind body (update_account_tags server.libraries.validator)
  updated ←
      or_else
        (Accounts.update_account (record {
          id = uri_req.id;
          balance = float_to_cents server.libraries.out_of_range json_req.balance;
        }))
        not_found_or_500
  pure (account_json updated)

unfoldable pub delete_account : Server → GinContext → Option IdRequest → Handler (Unit {0})
delete_account server ctx uri = do
  req ← should_bind uri (id_tags server.libraries.validator)
  fetch_owned ctx req.id
  or_else (Accounts.delete_account req.id) not_found_or_500
