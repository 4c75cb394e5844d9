-- ===== src/Api/Router.antt =====
-- `setupRouter` (api/server.go).
pub mod Access
use go_bank.Common.{Bool, true, false, Option, List, if◌then◌else◌}
use go_bank.Db.World.{pure, ◌>>=◌}
use go_bank.Db.Json.{AccountJson}
use go_bank.Api.Status.{Handler}
use go_bank.Api.Server.{Server, GinContext}
use go_bank.Api.Accounts.{
  CreateAccountRequest, IdRequest, ListAccountsRequest, UpdateAccountJson, create_account,
  get_account, list_accounts, update_account, delete_account,
}
use go_bank.Api.Transfers.{TransferRequest, TransferTxResultJson, create_transfer}
use go_bank.Api.Users.{CreateUserRequest, UserResponse, create_user}
use go_bank.Api.Sessions.{
  LoginUserRequest, LoginUserResponse, RenewAccessTokenRequest, RenewAccessTokenResponse,
  login_user, renew_access_token,
}
use go_bank.Api.Middleware.{auth_middleware}

-- A request that has found its route, with what is decoded of its path, query and body.
pub data Route : Type 0 where
  post_users : Option CreateUserRequest → Route
  post_login : Option LoginUserRequest → Route
  post_renew_access : Option RenewAccessTokenRequest → Route
  post_accounts : Option CreateAccountRequest → Route
  get_accounts_id : Option IdRequest → Route
  get_accounts : Option ListAccountsRequest → Route
  put_accounts_id : Option IdRequest → Option UpdateAccountJson → Route
  delete_accounts_id : Option IdRequest → Route
  post_transfers : Option TransferRequest → Route

-- The body of an answer with status 200.
pub data Body : Type 0 where
  user : UserResponse → Body
  login : LoginUserResponse → Body
  renewed : RenewAccessTokenResponse → Body
  account : AccountJson → Body
  accounts : List AccountJson → Body
  deleted : Body
  transferred : TransferTxResultJson → Body

-- The handler of each route.
unfoldable pub run_route : Server → Route → GinContext → Handler Body
run_route server (post_accounts body) ctx = create_account server ctx body >>= λ a. pure (account a)
run_route server (get_accounts_id uri) ctx = get_account server ctx uri >>= λ a. pure (account a)
run_route server (get_accounts query) ctx =
    list_accounts server ctx query >>= λ rows. pure (accounts rows)
run_route server (put_accounts_id uri body) ctx =
    update_account server ctx uri body >>= λ a. pure (account a)
run_route server (delete_accounts_id uri) ctx = delete_account server ctx uri >>= λ _. pure deleted
run_route server (post_transfers body) ctx =
    create_transfer server ctx body >>= λ r. pure (transferred r)
run_route server (post_users body) ctx = create_user server body >>= λ u. pure (user u)
run_route server (post_login body) ctx = login_user server ctx body >>= λ r. pure (login r)
run_route server (post_renew_access body) ctx =
    renew_access_token server body >>= λ r. pure (renewed r)

-- The routes outside the group that uses the middleware.
unfoldable pub is_public : Route → Bool
is_public (post_users body) = true
is_public (post_login body) = true
is_public (post_renew_access body) = true
is_public _ = false

unfoldable pub serve : Server → GinContext → Route → Handler Body
serve server ctx route =
    if is_public route
    then run_route server route ctx
    else auth_middleware server ctx (run_route server route)
