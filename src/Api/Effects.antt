-- ===== src/Api/Effects.antt =====
-- What the handlers do to the tables when they fail, and which never touch them.
use go_bank.Common.{Bool, true, false, Option, none, some, String}
use go_bank.Common.Int.{ℤ}
use go_bank.Token.Payload.{Payload}
use go_bank.Db.Effects.{
  ReadsOnly, IsAtomic, pure-ReadsOnly, fail-ReadsOnly, >>=-ReadsOnly, >>=-IsAtomic,
  convert-IsAtomic, or_else-ReadsOnly, or_else-IsAtomic, exec_tx-IsAtomic,
}
use go_bank.Db.Effects.Statements.{
  get_account-ReadsOnly, list_accounts-ReadsOnly, get_user-ReadsOnly, get_session-ReadsOnly,
  create_account-IsAtomic, delete_account-IsAtomic, update_account-IsAtomic,
  create_session-IsAtomic, create_user-IsAtomic,
}
use go_bank.Db.Models.{Session}
use go_bank.Db.Tx.Transfer.{transfer_tx}
use go_bank.Gapi.Effects.{
  now-ReadsOnly, create_token-ReadsOnly, verify_token-ReadsOnly, hash_password-ReadsOnly,
}
use go_bank.Api.Status.{HttpStatus, abort_if}
use go_bank.Api.Binding.{bind_if, should_bind}
use go_bank.Api.Server.{Server, GinContext, must_get, payload_or_panic}
use go_bank.Api.Accounts.{
  CreateAccountRequest, IdRequest, ListAccountsRequest, UpdateAccountJson, fetch_owned,
  create_account, get_account, list_accounts, update_account, delete_account,
}
use go_bank.Api.Transfers.{
  TransferRequest, valid_account, check_transfer, commit_transfer, create_transfer,
}
use go_bank.Api.Users.{CreateUserRequest, hashed_or_500, create_user}
use go_bank.Api.Sessions.{
  LoginUserRequest, RenewAccessTokenRequest, login_user, check_session, renew_access_token,
}

abort_if-ReadsOnly : (b : Bool) (s : HttpStatus) → ReadsOnly (abort_if b s)
abort_if-ReadsOnly true s = fail-ReadsOnly _
abort_if-ReadsOnly false s = pure-ReadsOnly tt

bind_if-ReadsOnly : {R : Type 0} (req : R) (b : Bool) → ReadsOnly (bind_if req b)
bind_if-ReadsOnly req true = pure-ReadsOnly req
bind_if-ReadsOnly req false = fail-ReadsOnly _

should_bind-ReadsOnly :
    {R : Type 0} (o : Option R) (test : R → Bool) → ReadsOnly (should_bind o test)
should_bind-ReadsOnly none test = fail-ReadsOnly _
should_bind-ReadsOnly (some req) test = bind_if-ReadsOnly req (test req)

payload-ReadsOnly : (o : Option Payload) → ReadsOnly (payload_or_panic o)
payload-ReadsOnly none = fail-ReadsOnly _
payload-ReadsOnly (some p) = pure-ReadsOnly p

must_get-ReadsOnly : (ctx : GinContext) → ReadsOnly (must_get ctx)
must_get-ReadsOnly ctx = payload-ReadsOnly ctx.payload

hashed_or_500-ReadsOnly : (o : Option String) → ReadsOnly (hashed_or_500 o)
hashed_or_500-ReadsOnly none = fail-ReadsOnly _
hashed_or_500-ReadsOnly (some h) = pure-ReadsOnly h

ruleset reading = (
  >>=-ReadsOnly, or_else-ReadsOnly, pure-ReadsOnly, fail-ReadsOnly, abort_if-ReadsOnly,
  should_bind-ReadsOnly, must_get-ReadsOnly, now-ReadsOnly, create_token-ReadsOnly,
  verify_token-ReadsOnly, hash_password-ReadsOnly, hashed_or_500-ReadsOnly, get_account-ReadsOnly,
  list_accounts-ReadsOnly, get_user-ReadsOnly, get_session-ReadsOnly,
)

fetch_owned-ReadsOnly : (ctx : GinContext) (id : ℤ) → ReadsOnly (fetch_owned ctx id)
unfolding fetch_owned
fetch_owned-ReadsOnly ctx id = search reading depth 12

valid_account-ReadsOnly : (id : ℤ) (currency : String) → ReadsOnly (valid_account id currency)
unfolding valid_account
valid_account-ReadsOnly id currency = search reading depth 12

check_transfer-ReadsOnly :
    (server : Server) (ctx : GinContext) (body : Option TransferRequest)
    → ReadsOnly (check_transfer server ctx body)
unfolding check_transfer
check_transfer-ReadsOnly server ctx body = search (reading, valid_account-ReadsOnly) depth 20

check_session-ReadsOnly :
    (s : Session) (p : Payload) (token : String) → ReadsOnly (check_session s p token)
unfolding check_session
check_session-ReadsOnly s p token = search reading depth 12

ruleset atomic = (
  >>=-IsAtomic, convert-IsAtomic, or_else-IsAtomic, create_user-IsAtomic, create_account-IsAtomic,
  delete_account-IsAtomic, update_account-IsAtomic, create_session-IsAtomic, exec_tx-IsAtomic,
)

-- getAccount, listAccounts and renewAccessToken change no table, and each of the other handlers that ends
-- in an error has changed no table: createUser, loginUser, createAccount, updateAccount, deleteAccount
-- and createTransfer.
pub handlers-IsAtomic :
    (server : Server) (ctx : GinContext) (uri : Option IdRequest)
    (page : Option ListAccountsRequest) (renew : Option RenewAccessTokenRequest)
    (user : Option CreateUserRequest) (login : Option LoginUserRequest)
    (account : Option CreateAccountRequest) (balance : Option UpdateAccountJson)
    (transfer : Option TransferRequest)
    → ReadsOnly (get_account server ctx uri)
      × ReadsOnly (list_accounts server ctx page)
      × ReadsOnly (renew_access_token server renew)
      × IsAtomic (create_user server user)
      × IsAtomic (login_user server ctx login)
      × IsAtomic (create_account server ctx account)
      × IsAtomic (update_account server ctx uri balance)
      × IsAtomic (delete_account server ctx uri)
      × IsAtomic (create_transfer server ctx transfer)
unfolding get_account list_accounts renew_access_token create_user login_user create_account
    update_account delete_account create_transfer commit_transfer transfer_tx
handlers-IsAtomic server ctx uri page renew user login account balance transfer = (
  search (reading, fetch_owned-ReadsOnly) depth 12,
  search reading depth 12,
  search (reading, check_session-ReadsOnly) depth 16,
  search (atomic, reading) depth 16,
  search (atomic, reading) depth 20,
  search (atomic, reading) depth 16,
  search (atomic, reading, fetch_owned-ReadsOnly) depth 16,
  search (atomic, reading, fetch_owned-ReadsOnly) depth 16,
  search (atomic, reading, check_transfer-ReadsOnly) depth 16,
)
