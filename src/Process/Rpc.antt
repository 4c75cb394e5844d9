-- ===== src/Process/Rpc.antt =====
-- main.go: runGRPCServer, and the descriptor of the service (pb/service_go_bank_grpc.pb.go). A call is a
-- method of the service with its decoded request.
pub mod Access
pub mod Balance
pub mod Books
pub mod Custody
use go_bank.Common.{ℕ, Bool, Option, none, some, List, [], ◌∷◌, String}
use go_bank.Common.Int.{ℤ}
use go_bank.Util.Float.{Float64}
use go_bank.Db.World.{World, pure, ◌>>=◌}
use go_bank.Gapi.Status.{Rpc}
use go_bank.Gapi.Server.{Server, Context}
use go_bank.Gapi.Accounts.{
  PbAccount, AccountLookUp, create_account, get_account, list_accounts, update_account,
  delete_account, look_up_account,
}
use go_bank.Gapi.Transfers.{CreateTransferRequest, CreateTransferResponse, create_transfer}
use go_bank.Gapi.Entries.{ActivityEntry, list_entries}
use go_bank.Gapi.Users.{
  PbUser, CreateUserRequest, UpdateUserRequest, create_user, update_user, verify_email,
}
use go_bank.Gapi.Sessions.{
  LoginUserResponse, RenewAccessTokenResponse, login_user, renew_access_token,
}
use go_bank.Gapi.Interceptor.{auth_interceptor}
use go_bank.Logger.Core.{Logger, Package}
use go_bank.Logger.Grpc.{GrpcLogOptions, Views, Logged, unary_server_interceptor}

pub data Call : Type 0 where
  create_user_call : CreateUserRequest → Call
  login_user_call : (username password : String) → Call
  renew_access_token_call : (refresh_token : String) → Call
  verify_email_call : (email_id : ℤ) → (secret_code : String) → Call
  update_user_call : UpdateUserRequest → Call
  create_account_call : (currency : String) → Call
  get_account_call : (id : ℤ) → Call
  list_accounts_call : (page_id page_size : ℤ) → Call
  list_entries_call : (page_id page_size : ℤ) → Call
  update_account_call : (id : ℤ) → (balance : Float64) → Call
  delete_account_call : (id : ℤ) → Call
  look_up_account_call : (id : ℤ) → Call
  create_transfer_call : CreateTransferRequest → Call

pub data Reply : Type 0 where
  user : PbUser → Reply
  login : LoginUserResponse → Reply
  renewed : RenewAccessTokenResponse → Reply
  verified : Bool → Reply
  account : PbAccount → Reply
  accounts : List PbAccount → Reply
  entries : List ActivityEntry → Reply
  deleted : Reply
  looked_up : AccountLookUp → Reply
  transferred : CreateTransferResponse → Reply

-- `info.FullMethod`
unfoldable pub full_method : Call → String
full_method (create_user_call req) = "/pb.GoBank/CreateUser"
full_method (login_user_call username password) = "/pb.GoBank/LoginUser"
full_method (renew_access_token_call refresh_token) = "/pb.GoBank/RenewAccessToken"
full_method (verify_email_call email_id secret_code) = "/pb.GoBank/VerifyEmail"
full_method (update_user_call req) = "/pb.GoBank/UpdateUser"
full_method (create_account_call currency) = "/pb.GoBank/CreateAccount"
full_method (get_account_call id) = "/pb.GoBank/GetAccount"
full_method (list_accounts_call page_id page_size) = "/pb.GoBank/ListAccounts"
full_method (list_entries_call page_id page_size) = "/pb.GoBank/ListEntries"
full_method (update_account_call id balance) = "/pb.GoBank/UpdateAccount"
full_method (delete_account_call id) = "/pb.GoBank/DeleteAccount"
full_method (look_up_account_call id) = "/pb.GoBank/LookUpAccount"
full_method (create_transfer_call req) = "/pb.GoBank/CreateTransfer"

-- The handler of a method.
unfoldable pub run_call : Server → Call → Context → Rpc Reply
run_call server (create_user_call req) ctx = create_user server req >>= λ u. pure (user u)
run_call server (login_user_call username password) ctx =
    login_user server ctx username password >>= λ r. pure (login r)
run_call server (renew_access_token_call refresh_token) ctx =
    renew_access_token server refresh_token >>= λ r. pure (renewed r)
run_call server (verify_email_call email_id secret_code) ctx =
    verify_email email_id secret_code >>= λ b. pure (verified b)
run_call server (update_user_call req) ctx = update_user server ctx req >>= λ u. pure (user u)
run_call server (create_account_call currency) ctx =
    create_account ctx currency >>= λ a. pure (account a)
run_call server (get_account_call id) ctx = get_account ctx id >>= λ a. pure (account a)
run_call server (list_accounts_call page_id page_size) ctx =
    list_accounts ctx page_id page_size >>= λ rows. pure (accounts rows)
run_call server (list_entries_call page_id page_size) ctx =
    list_entries ctx page_id page_size >>= λ rows. pure (entries rows)
run_call server (update_account_call id balance) ctx =
    update_account server ctx id balance >>= λ a. pure (account a)
run_call server (delete_account_call id) ctx = delete_account ctx id >>= λ _. pure deleted
run_call server (look_up_account_call id) ctx = look_up_account ctx id >>= λ a. pure (looked_up a)
run_call server (create_transfer_call req) ctx =
    create_transfer server ctx req >>= λ r. pure (transferred r)

-- The options of the log that main.go gives to the interceptors.
unfoldable pub grpc_opts : Logger → GrpcLogOptions
grpc_opts l = record {
  logger = some l;
  skip_methods = "/grpc.health.v1.Health/Check" ∷ [];
  log_payloads = Bool.false;
  decider_func = none;
  request_id_header = "";
  trace_id_header = "";
  span_id_header = "";
}

-- A call to the server: the interceptor of the log is the outer one of the chain.
unfoldable pub serve_call :
    Package → Logger → Views Reply → Server → Call → Context → World → Option (Logged Reply)
unfolding grpc_opts full_method run_call
serve_call p l views server call ctx =
    unary_server_interceptor p (grpc_opts l) views (full_method call) ctx
      λ inner. auth_interceptor server (full_method call) inner (run_call server call)
