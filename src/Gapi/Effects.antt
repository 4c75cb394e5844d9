-- ===== src/Gapi/Effects.antt =====
-- What the handlers do to the tables when they fail, and which never touch them.
use go_bank.Common.{refl, Bool, true, false, Option, none, some, List, [], ◌∷◌, String, arith}
use go_bank.Common.Int.{ℤ}
use go_bank.Util.Float.{Float64}
use go_bank.Util.Password.{Bcrypt, hash_password}
use go_bank.Token.Payload.{Payload, new_payload}
use go_bank.Token.Paseto.{PasetoMaker, create_token, verify_token}
use go_bank.Db.World.{exchange, now}
use go_bank.Db.Effects.{
  ReadsOnly, IsAtomic, pure-ReadsOnly, fail-ReadsOnly, >>=-ReadsOnly, >>=-IsAtomic,
  convert-IsAtomic, or_else-ReadsOnly, or_else-IsAtomic, exec_tx-IsAtomic,
}
use go_bank.Db.Effects.Statements.{
  get_account-ReadsOnly, list_accounts-ReadsOnly, list_activity_entries-ReadsOnly,
  get_user-ReadsOnly, get_session-ReadsOnly, create_account-IsAtomic, delete_account-IsAtomic,
  update_account-IsAtomic, update_user-IsAtomic, create_session-IsAtomic,
}
use go_bank.Db.Models.{Session}
use go_bank.Db.Tx.Transfer.{transfer_tx}
use go_bank.Db.Tx.CreateUser.{create_user_tx}
use go_bank.Db.Tx.VerifyEmail.{verify_email_tx}
use go_bank.Gapi.Status.{Code, reject, refuse_if}
use go_bank.Gapi.Server.{Server, Context, caller}
use go_bank.Gapi.Accounts.{
  authorize_account, create_account, get_account, list_accounts, update_account, delete_account,
  look_up_account,
}
use go_bank.Gapi.Transfers.{
  CreateTransferRequest, validate_transfer_account, check_transfer, commit_transfer,
  create_transfer,
}
use go_bank.Gapi.Entries.{list_entries}
use go_bank.Gapi.Users.{
  CreateUserRequest, UpdateUserRequest, hashed_or_fail, create_user, update_params, update_user,
  verify_email,
}
use go_bank.Gapi.Sessions.{check_session, login_user, renew_access_token}

pub reject-ReadsOnly : (vs : List String) → ReadsOnly (reject vs)
reject-ReadsOnly [] = pure-ReadsOnly tt
reject-ReadsOnly (v ∷ vs) = fail-ReadsOnly _

pub refuse_if-ReadsOnly : (b : Bool) (c : Code) → ReadsOnly (refuse_if b c)
refuse_if-ReadsOnly true c = fail-ReadsOnly _
refuse_if-ReadsOnly false c = pure-ReadsOnly tt

pub caller-ReadsOnly : (ctx : Context) → ReadsOnly (caller ctx)
caller-ReadsOnly ctx = record { same = λ w. ground arith }

pub now-ReadsOnly : {E : Type 0} → ReadsOnly (now {E = E})
now-ReadsOnly = record { same = λ w. refl }

pub create_token-ReadsOnly :
    (maker : PasetoMaker) (name : String) (duration : _)
    → ReadsOnly (create_token maker name duration)
unfolding create_token new_payload exchange
create_token-ReadsOnly maker name duration = record { same = λ w. ground arith }

pub verify_token-ReadsOnly :
    (maker : PasetoMaker) (token : String) → ReadsOnly (verify_token maker token)
unfolding verify_token
verify_token-ReadsOnly maker token = record { same = λ w. refl }

pub hash_password-ReadsOnly :
    {E : Type 0} (b : Bcrypt) (password : String) → ReadsOnly (hash_password {E = E} b password)
unfolding hash_password
hash_password-ReadsOnly b password = record { same = λ w. refl }

pub hashed_or_fail-ReadsOnly : (o : Option String) → ReadsOnly (hashed_or_fail o)
hashed_or_fail-ReadsOnly none = fail-ReadsOnly _
hashed_or_fail-ReadsOnly (some h) = pure-ReadsOnly h

pub ruleset reading = (
  >>=-ReadsOnly, or_else-ReadsOnly, pure-ReadsOnly, fail-ReadsOnly, reject-ReadsOnly,
  refuse_if-ReadsOnly, caller-ReadsOnly, now-ReadsOnly, create_token-ReadsOnly,
  verify_token-ReadsOnly, hash_password-ReadsOnly, hashed_or_fail-ReadsOnly, get_account-ReadsOnly,
  list_accounts-ReadsOnly, list_activity_entries-ReadsOnly, get_user-ReadsOnly,
  get_session-ReadsOnly,
)

pub authorize_account-ReadsOnly : (ctx : Context) (id : ℤ) → ReadsOnly (authorize_account ctx id)
unfolding authorize_account
authorize_account-ReadsOnly ctx id = search reading depth 12

pub check_session-ReadsOnly :
    (s : Session) (p : Payload) (token : String) → ReadsOnly (check_session s p token)
unfolding check_session
check_session-ReadsOnly s p token = search reading depth 12

validate_transfer_account-ReadsOnly :
    (id : ℤ) (currency : String) → ReadsOnly (validate_transfer_account id currency)
unfolding validate_transfer_account
validate_transfer_account-ReadsOnly id currency = search reading depth 12

check_transfer-ReadsOnly :
    (server : Server) (ctx : Context) (req : CreateTransferRequest)
    → ReadsOnly (check_transfer server ctx req)
unfolding check_transfer
check_transfer-ReadsOnly server ctx req =
    search (reading, validate_transfer_account-ReadsOnly) depth 20

pub update_params-ReadsOnly :
    (server : Server) (req : UpdateUserRequest) (password : Option String)
    → ReadsOnly (update_params server req password)
unfolding update_params
update_params-ReadsOnly server req none = search reading depth 12
update_params-ReadsOnly server req (some password) = search reading depth 12

-- GetAccount, ListAccounts, LookUpAccount, ListEntries and RenewAccessToken change no table, whether
-- they succeed or fail.
pub readers-ReadsOnly :
    (server : Server) (ctx : Context) (id page_id page_size : ℤ) (token : String)
    → ReadsOnly (get_account ctx id)
      × ReadsOnly (list_accounts ctx page_id page_size)
      × ReadsOnly (look_up_account ctx id)
      × ReadsOnly (list_entries ctx page_id page_size)
      × ReadsOnly (renew_access_token server token)
unfolding get_account list_accounts look_up_account list_entries renew_access_token
readers-ReadsOnly server ctx id page_id page_size token = (
  search (reading, authorize_account-ReadsOnly) depth 12,
  search reading depth 12,
  search reading depth 12,
  search reading depth 12,
  search (reading, check_session-ReadsOnly) depth 16,
)

ruleset atomic = (
  >>=-IsAtomic, convert-IsAtomic, or_else-IsAtomic, create_account-IsAtomic,
  delete_account-IsAtomic, update_account-IsAtomic, update_user-IsAtomic, create_session-IsAtomic,
  exec_tx-IsAtomic,
)

pub create_transfer-IsAtomic :
    (server : Server) (ctx : Context) (req : CreateTransferRequest)
    → IsAtomic (create_transfer server ctx req)
unfolding create_transfer commit_transfer transfer_tx
create_transfer-IsAtomic server ctx req =
    search (atomic, reading, check_transfer-ReadsOnly) depth 16

pub accounts-IsAtomic :
    (server : Server) (ctx : Context) (id : ℤ) (currency : String) (amount : Float64)
    → IsAtomic (create_account ctx currency)
      × IsAtomic (update_account server ctx id amount)
      × IsAtomic (delete_account ctx id)
unfolding create_account update_account delete_account
accounts-IsAtomic server ctx id currency amount = (
  search (atomic, reading) depth 16,
  search (atomic, reading, authorize_account-ReadsOnly) depth 16,
  search (atomic, reading, authorize_account-ReadsOnly) depth 16,
)

-- A call of any handler that changes tables (CreateUser, UpdateUser, VerifyEmail, LoginUser, CreateAccount,
-- UpdateAccount, DeleteAccount, CreateTransfer) that ends in an error has changed no table, whichever
-- exchange of it is lost on the way to the server.
pub writers-IsAtomic :
    (server : Server) (ctx : Context) (id : ℤ) (text code : String) (amount : Float64)
    (user : CreateUserRequest) (update : UpdateUserRequest) (transfer : CreateTransferRequest)
    → IsAtomic (create_user server user)
      × IsAtomic (update_user server ctx update)
      × IsAtomic (verify_email id code)
      × IsAtomic (login_user server ctx text code)
      × IsAtomic (create_account ctx text)
      × IsAtomic (update_account server ctx id amount)
      × IsAtomic (delete_account ctx id)
      × IsAtomic (create_transfer server ctx transfer)
unfolding create_user update_user verify_email login_user create_transfer commit_transfer
    transfer_tx create_user_tx verify_email_tx
writers-IsAtomic server ctx id text code amount user update transfer = (
  search (atomic, reading) depth 16,
  search (atomic, reading, update_params-ReadsOnly) depth 16,
  search (atomic, reading) depth 16,
  search (atomic, reading) depth 20,
  (accounts-IsAtomic server ctx id text amount).0,
  (accounts-IsAtomic server ctx id text amount).1,
  (accounts-IsAtomic server ctx id text amount).2,
  create_transfer-IsAtomic server ctx transfer,
)
