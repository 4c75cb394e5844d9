-- ===== src/Api/Sessions.antt =====
-- api/auth.go and api/token.go.
use go_bank.Common.{Bool, ℕ, false, not, ◌&&◌, Option, String, str_eq, ltb}
use go_bank.Util.Password.{check_password}
use go_bank.Token.Payload.{Payload, TokenError}
use go_bank.Token.Paseto.{create_token, verify_token}
use go_bank.Db.Models.{Session}
use go_bank.Db.World.{pure, now, or_else, ◌>>=◌, ◌>>◌}
use go_bank.Db.Query.Users.{get_user}
use go_bank.Db.Query.Sessions.{create_session, get_session}
use go_bank.Api.Status.{HttpStatus, Handler, unauthorized, abort_if, not_found_or_500, any_500}
use go_bank.Api.Binding.{Validator, should_bind}
use go_bank.Api.Server.{Server, GinContext}
use go_bank.Api.Users.{UserResponse, new_user_response}

pub record LoginUserRequest : Type 0 where
  pub username : String
  pub password : String

unfoldable pub login_user_tags : Validator → LoginUserRequest → Bool
login_user_tags v req =
    (v.required_text req.username && v.alphanum req.username)
    && (v.required_text req.password && v.min_text 8 req.password)

pub record LoginUserResponse : Type 0 where
  pub session_id : ℕ
  pub access_token : String
  pub access_token_expires_at : ℕ
  pub refresh_token : String
  pub refresh_token_expires_at : ℕ
  pub user : UserResponse

abbrev pub any_401 : TokenError → HttpStatus
any_401 e = unauthorized

unfoldable pub login_user :
    Server → GinContext → Option LoginUserRequest → Handler LoginUserResponse
login_user server ctx body = do
  req ← should_bind body (login_user_tags server.libraries.validator)
  user ← or_else (get_user req.username) not_found_or_500
  abort_if (not (check_password server.libraries.bcrypt req.password user.hashed_password))
      unauthorized
  access ←
      or_else (create_token server.token_maker user.username server.config.access_token_duration)
        any_500
  refresh ←
      or_else (create_token server.token_maker user.username server.config.refresh_token_duration)
        any_500
  session ←
      or_else
        (create_session (record {
          id = refresh.1.id;
          username = user.username;
          refresh_token = refresh.0;
          user_agent = ctx.user_agent;
          client_ip = ctx.client_ip;
          is_blocked = false;
          expires_at = refresh.1.expired_at;
        }))
        any_500
  pure (record {
    session_id = session.id;
    access_token = access.0;
    access_token_expires_at = access.1.expired_at;
    refresh_token = refresh.0;
    refresh_token_expires_at = refresh.1.expired_at;
    user = new_user_response user;
  })

pub record RenewAccessTokenRequest : Type 0 where
  pub refresh_token : String

unfoldable pub renew_access_token_tags : Validator → RenewAccessTokenRequest → Bool
renew_access_token_tags v req = v.required_text req.refresh_token

pub record RenewAccessTokenResponse : Type 0 where
  pub access_token : String
  pub access_token_expires_at : ℕ

unfoldable pub check_session : Session → Payload → (refresh_token : String) → Handler (Unit {0})
check_session session refresh_payload refresh_token = do
  abort_if session.is_blocked unauthorized
  abort_if (not (str_eq session.username refresh_payload.username)) unauthorized
  abort_if (not (str_eq session.refresh_token refresh_token)) unauthorized
  time ← now
  abort_if (ltb session.expires_at time) unauthorized

unfoldable pub renew_access_token :
    Server → Option RenewAccessTokenRequest → Handler RenewAccessTokenResponse
renew_access_token server body = do
  req ← should_bind body (renew_access_token_tags server.libraries.validator)
  refresh_payload ← or_else (verify_token server.token_maker req.refresh_token) any_401
  session ← or_else (get_session refresh_payload.id) not_found_or_500
  check_session session refresh_payload req.refresh_token
  access ←
      or_else
        (create_token server.token_maker refresh_payload.username
          server.config.access_token_duration)
        any_500
  pure (record { access_token = access.0; access_token_expires_at = access.1.expired_at })
