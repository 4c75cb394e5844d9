-- ===== src/Db/Query/Accounts.antt =====
-- db/sqlc/account.sql.go. `accounts` has the primary key id, UNIQUE (owner, currency), a foreign
-- key to users, and is referred to by entries and transfers (db/migration).
pub mod Credit
use go_bank.Common.{
  ℕ, ◌+◌, Bool, true, false, ◌&&◌, ◌||◌, Option, none, some, List, [], ◌∷◌, ◌++◌, String, str_eq,
  if◌then◌else◌,
}
use go_bank.Common.Int.{ℤ, pos, ◌+ℤ◌, eq_ℤ, leb_ℤ, in_int64}
use go_bank.Common.Lists.{find_row, has_row, update_row, filter_rows, deselect, order_by}
use go_bank.Db.Models.{Account, Entry, Transfer}
use go_bank.Db.World.{
  World, Action, DbError, no_rows, pg_error, unique_violation, foreign_key_violation,
  numeric_out_of_range, ok, err, exchange, with_accounts,
}
use go_bank.Db.Query.Page.{page_rows, one_row, account_is, user_is}

pub record AddAccountBalanceParams : Type 0 where
  pub amount : ℤ
  pub id : ℤ

-- The row is written if the sum is in bigint's range.
abbrev pub credit_row :
    (in_range : Bool) → AddAccountBalanceParams → Account → Action DbError Account
credit_row true arg a w =
    let a' : Account = record a { balance = a.balance +ℤ arg.amount } in
    (ok a', with_accounts w (update_row (account_is arg.id) (λ _. a') w.tables.accounts))
credit_row false arg a w = (err (pg_error numeric_out_of_range), w)

abbrev pub add_to_row : AddAccountBalanceParams → Option Account → Action DbError Account
add_to_row arg none w = (err no_rows, w)
add_to_row arg (some a) w = credit_row (in_int64 (a.balance +ℤ arg.amount)) arg a w

unfoldable pub add_account_balance : AddAccountBalanceParams → Action DbError Account
add_account_balance arg =
    exchange λ w. add_to_row arg (find_row (account_is arg.id) w.tables.accounts) w

pub record CreateAccountParams : Type 0 where
  pub owner : String
  pub balance : ℤ
  pub currency : String

abbrev pub same_owner_currency : CreateAccountParams → Account → Bool
same_owner_currency arg a = str_eq a.owner arg.owner && str_eq a.currency arg.currency

-- An id is drawn from the sequence also where the row is refused.
unfoldable pub create_account : CreateAccountParams → Action DbError Account
create_account arg = exchange λ w.
    let n = w.account_seq + 1 in
    let row : Account = record {
      id = pos n;
      owner = arg.owner;
      balance = arg.balance;
      currency = arg.currency;
      created_at = w.clock;
    } in
    let w' = record w { account_seq = n } in
    if has_row (same_owner_currency arg) w.tables.accounts
    then (err (pg_error unique_violation), w')
    else if has_row (user_is arg.owner) w.tables.users
    then (ok row, with_accounts w' (w.tables.accounts ++ row ∷ []))
    else (err (pg_error foreign_key_violation), w')

abbrev entry_of : ℤ → Entry → Bool
entry_of id e = eq_ℤ e.account_id id

abbrev transfer_of : ℤ → Transfer → Bool
transfer_of id t = eq_ℤ t.from_account_id id || eq_ℤ t.to_account_id id

-- Does a row of entries or transfers refer to the account?
abbrev pub is_referenced : ℤ → World → Bool
is_referenced id w =
    has_row (entry_of id) w.tables.entries || has_row (transfer_of id) w.tables.transfers

-- To delete no row is no error.
unfoldable pub delete_account : ℤ → Action DbError (Unit {0})
delete_account id = exchange λ w.
    if has_row (account_is id) w.tables.accounts && is_referenced id w
    then (err (pg_error foreign_key_violation), w)
    else (ok tt, with_accounts w (deselect (account_is id) w.tables.accounts))

unfoldable pub get_account : ℤ → Action DbError Account
get_account id = exchange λ w. (one_row (find_row (account_is id) w.tables.accounts), w)

pub record ListAccountsParams : Type 0 where
  pub owner : String
  pub limit : ℤ
  pub offset : ℤ

abbrev pub owned_by : String → Account → Bool
owned_by owner a = str_eq a.owner owner

abbrev pub id_before : Account → Account → Bool
id_before a b = leb_ℤ a.id b.id

-- The rows that ListAccounts pages through.
abbrev pub accounts_of : String → World → List Account
accounts_of owner w = order_by id_before (filter_rows (owned_by owner) w.tables.accounts)

unfoldable pub list_accounts : ListAccountsParams → Action DbError (List Account)
list_accounts arg = exchange λ w. (page_rows arg.limit arg.offset (accounts_of arg.owner w), w)

pub record UpdateAccountParams : Type 0 where
  pub id : ℤ
  pub balance : ℤ

abbrev pub set_row : UpdateAccountParams → Option Account → Action DbError Account
set_row arg none w = (err no_rows, w)
set_row arg (some a) w =
    let a' : Account = record a { balance = arg.balance } in
    (ok a', with_accounts w (update_row (account_is arg.id) (λ _. a') w.tables.accounts))

unfoldable pub update_account : UpdateAccountParams → Action DbError Account
update_account arg = exchange λ w. set_row arg (find_row (account_is arg.id) w.tables.accounts) w
