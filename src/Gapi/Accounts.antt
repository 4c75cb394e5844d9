-- ===== src/Gapi/Accounts.antt =====
-- gapi/rpc_account.go.
pub mod Writes
pub mod Paging
use go_bank.Common.{not, Option, some, List, ◌++◌, map, String, ℕ, if◌then◌else◌, str_eq}
use go_bank.Common.Int.{ℤ, pos, ◌-ℤ◌, ◌*ℤ◌, wrap_int32}
use go_bank.Util.Float.{Float64, lt_zero, float_to_cents, cents_to_float}
use go_bank.Val.Validation.{
  error_if, validate_currency, validate_id, validate_page_id, validate_page_size,
}
use go_bank.Db.Models.{Account}
use go_bank.Db.World.{
  DbError, is_no_rows, pg_code, PgCode, foreign_key_violation, unique_violation, pure, or_else,
  ◌>>=◌, ◌>>◌,
}
use go_bank.Db.Query.Accounts
use go_bank.Gapi.Status.{
  Status, Rpc, status, not_found, already_exists, permission_denied, internal, field_violation,
  reject, refuse_if,
}
use go_bank.Gapi.Server.{Server, Context, caller}

-- pb.Account; `created_at` is the timestamp.
pub record PbAccount : Type 0 where
  pub id : ℤ
  pub owner : String
  pub balance : Float64
  pub currency : String
  pub created_at : ℕ

pub record AccountLookUp : Type 0 where
  pub id : ℤ
  pub owner : String
  pub currency : String

unfoldable pub convert_account : Account → PbAccount
convert_account a = record {
  id = a.id;
  owner = a.owner;
  balance = cents_to_float a.balance;
  currency = a.currency;
  created_at = a.created_at;
}

-- A missing row is NotFound, any other error is Internal.
abbrev pub not_found_or_internal : DbError → Status
not_found_or_internal e = if is_no_rows e then status not_found else status internal

unfoldable pub authorize_account : Context → ℤ → Rpc Account
authorize_account ctx account_id = do
  account ← or_else (Accounts.get_account account_id) not_found_or_internal
  auth_payload ← caller ctx
  refuse_if (not (str_eq account.owner auth_payload.username)) permission_denied
  pure account

abbrev pub create_account_code : Option PgCode → Status
create_account_code (some foreign_key_violation) = status already_exists
create_account_code (some unique_violation) = status already_exists
create_account_code _ = status internal

abbrev pub create_account_error : DbError → Status
create_account_error e = create_account_code (pg_code e)

unfoldable pub validate_create_account_request : (currency : String) → List String
validate_create_account_request currency = field_violation "currency" (validate_currency currency)

unfoldable pub create_account : Context → (currency : String) → Rpc PbAccount
create_account ctx currency = do
  reject (validate_create_account_request currency)
  auth_payload ← caller ctx
  account ←
      or_else
        (Accounts.create_account
          (record { owner = auth_payload.username; balance = pos 0; currency = currency }))
        create_account_error
  pure (convert_account account)

unfoldable pub validate_id_request : (id : ℤ) → List String
validate_id_request id = field_violation "id" (validate_id id)

unfoldable pub get_account : Context → (id : ℤ) → Rpc PbAccount
get_account ctx id = do
  reject (validate_id_request id)
  account ← authorize_account ctx id
  pure (convert_account account)

unfoldable pub validate_list_accounts_request : (page_id page_size : ℤ) → List String
validate_list_accounts_request page_id page_size =
    field_violation "page_id" (validate_page_id page_id)
    ++ field_violation "page_size" (validate_page_size page_size)

-- `(req.GetPageId() - 1) * req.GetPageSize()` on int32.
unfoldable pub page_offset : (page_id page_size : ℤ) → ℤ
page_offset page_id page_size = wrap_int32 (wrap_int32 (page_id -ℤ pos 1) *ℤ page_size)

abbrev pub any_internal : DbError → Status
any_internal _ = status internal

unfoldable pub list_accounts : Context → (page_id page_size : ℤ) → Rpc (List PbAccount)
list_accounts ctx page_id page_size = do
  reject (validate_list_accounts_request page_id page_size)
  auth_payload ← caller ctx
  accounts ←
      or_else
        (Accounts.list_accounts (record {
          owner = auth_payload.username;
          limit = page_size;
          offset = page_offset page_id page_size;
        }))
        any_internal
  pure (map convert_account accounts)

unfoldable pub validate_update_account_request : (id : ℤ) (balance : Float64) → List String
validate_update_account_request id balance =
    field_violation "id" (validate_id id) ++ field_violation "balance" (error_if (lt_zero balance))

unfoldable pub update_account : Server → Context → (id : ℤ) (balance : Float64) → Rpc PbAccount
update_account server ctx id balance = do
  reject (validate_update_account_request id balance)
  authorize_account ctx id
  updated ←
      or_else
        (Accounts.update_account
          (record { id = id; balance = float_to_cents server.out_of_range balance }))
        not_found_or_internal
  pure (convert_account updated)

unfoldable pub delete_account : Context → (id : ℤ) → Rpc (Unit {0})
delete_account ctx id = do
  reject (validate_id_request id)
  authorize_account ctx id
  or_else (Accounts.delete_account id) not_found_or_internal

unfoldable pub look_up_account : Context → (id : ℤ) → Rpc AccountLookUp
look_up_account ctx id = do
  reject (validate_id_request id)
  caller ctx
  account ← or_else (Accounts.get_account id) not_found_or_internal
  pure (record { id = account.id; owner = account.owner; currency = account.currency })
