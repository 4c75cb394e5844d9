-- ===== src/Gapi/Sessions.antt =====
-- gapi/rpc_login_user.go and rpc_token.go.
use go_bank.Common.{ℕ, false, not, List, ◌++◌, String, str_eq, ltb}
use go_bank.Util.Password.{check_password}
use go_bank.Val.Validation.{validate_username, validate_password, validate_string}
use go_bank.Token.Payload.{Payload, TokenError}
use go_bank.Token.Paseto.{create_token, verify_token}
use go_bank.Db.Models.{Session}
use go_bank.Db.World.{pure, now, or_else, ◌>>=◌, ◌>>◌}
use go_bank.Db.Query.Users.{get_user}
use go_bank.Db.Query.Sessions.{create_session, get_session}
use go_bank.Gapi.Status.{
  Status, Rpc, status, internal, unauthenticated, field_violation, reject, refuse_if,
}
use go_bank.Gapi.Server.{Server, Context}
use go_bank.Gapi.Accounts.{not_found_or_internal, any_internal}
use go_bank.Gapi.Metadata.{extract_metadata}
use go_bank.Gapi.Users.{PbUser, convert_user}

pub record LoginUserResponse : Type 0 where
  pub session_id : ℕ
  pub access_token : String
  pub refresh_token : String
  pub access_token_expires_at : ℕ
  pub refresh_token_expires_at : ℕ
  pub user : PbUser

unfoldable pub validate_login_user_request : (username password : String) → List String
validate_login_user_request username password =
    field_violation "username" (validate_username username)
    ++ field_violation "password" (validate_password password)

abbrev pub token_internal : TokenError → Status
token_internal _ = status internal

abbrev pub token_unauthenticated : TokenError → Status
token_unauthenticated _ = status unauthenticated

unfoldable pub login_user : Server → Context → (username password : String) → Rpc LoginUserResponse
login_user server ctx username password = do
  reject (validate_login_user_request username password)
  user ← or_else (get_user username) not_found_or_internal
  refuse_if (not (check_password server.bcrypt password user.hashed_password)) unauthenticated
  access ←
      or_else (create_token server.token_maker user.username server.access_token_duration)
        token_internal
  refresh ←
      or_else (create_token server.token_maker user.username server.refresh_token_duration)
        token_internal
  session ←
      or_else
        (create_session (record {
          id = refresh.1.id;
          username = user.username;
          refresh_token = refresh.0;
          user_agent = (extract_metadata ctx).user_agent;
          client_ip = (extract_metadata ctx).client_ip;
          is_blocked = false;
          expires_at = refresh.1.expired_at;
        }))
        any_internal
  pure (record {
    session_id = session.id;
    access_token = access.0;
    refresh_token = refresh.0;
    access_token_expires_at = access.1.expired_at;
    refresh_token_expires_at = refresh.1.expired_at;
    user = convert_user user;
  })

pub record RenewAccessTokenResponse : Type 0 where
  pub access_token : String
  pub access_token_expires_at : ℕ

unfoldable pub validate_renew_access_token_request : (refresh_token : String) → List String
validate_renew_access_token_request refresh_token =
    field_violation "refresh_token" (validate_string refresh_token 1 512)

-- The four tests that the stored session has to pass.
unfoldable pub check_session : Session → Payload → (refresh_token : String) → Rpc (Unit {0})
check_session session refresh_payload refresh_token = do
  refuse_if session.is_blocked unauthenticated
  refuse_if (not (str_eq session.username refresh_payload.username)) unauthenticated
  refuse_if (not (str_eq session.refresh_token refresh_token)) unauthenticated
  time ← now
  refuse_if (ltb session.expires_at time) unauthenticated

unfoldable pub renew_access_token : Server → (refresh_token : String) → Rpc RenewAccessTokenResponse
renew_access_token server refresh_token = do
  reject (validate_renew_access_token_request refresh_token)
  refresh_payload ← or_else (verify_token server.token_maker refresh_token) token_unauthenticated
  session ← or_else (get_session refresh_payload.id) not_found_or_internal
  check_session session refresh_payload refresh_token
  access ←
      or_else
        (create_token server.token_maker refresh_payload.username server.access_token_duration)
        token_internal
  pure (record { access_token = access.0; access_token_expires_at = access.1.expired_at })
