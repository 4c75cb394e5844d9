-- ===== src/Api/Agreement/Sessions.antt =====
-- The session handlers of api against the RPCs.
use go_bank.Common.{◌≡◌, refl, not, ltb, some, String, str_eq}
use go_bank.Util.Password.{check_password}
use go_bank.Token.Payload.{Payload}
use go_bank.Token.Paseto.{create_token, verify_token}
use go_bank.Db.Models.{Session}
use go_bank.Db.Query.Users.{get_user}
use go_bank.Db.Query.Sessions.{create_session, get_session}
use go_bank.Gapi.Server as Grpc
use go_bank.Gapi.Metadata.{extract_metadata}
use go_bank.Gapi.Sessions as Rpc
use go_bank.Gapi.Users.{convert_user}
use go_bank.Api.Status.{unauthorized, forbidden}
use go_bank.Api.Server.{Server, GinContext}
use go_bank.Api.Users.{new_user_response}
use go_bank.Api.Sessions as Rest
use go_bank.Api.Agreement.{Agree, IsSame, pure-Agree, >>=-Same}
use go_bank.Api.Agreement.Rules.{
  translate, is_empty, bind_on-Agree, abort_if-Agree, query-Agree, last-Agree, now-Agree,
  not_found_same,
}

-- Two answers with one access token.
pub record IsRenewed (json : Rest.RenewAccessTokenResponse) (rsp : Rpc.RenewAccessTokenResponse)
    : Type 0 where
  pub token : json.access_token ≡ rsp.access_token
  pub expiry : json.access_token_expires_at ≡ rsp.access_token_expires_at

-- The servers share the maker of tokens.
pub record ShareTokens (server : Server) (gserver : Grpc.Server) : Type 0 where
  pub maker : server.token_maker ≡ gserver.token_maker
  pub access : server.config.access_token_duration ≡ gserver.access_token_duration
  pub refresh : server.config.refresh_token_duration ≡ gserver.refresh_token_duration
  pub bcrypt : server.libraries.bcrypt ≡ gserver.bcrypt

check_session-Agree :
    (s : Session) (p : Payload) (token : String)
    → Agree IsSame
        (translate unauthorized forbidden)
        (Rest.check_session s p token)
        (Rpc.check_session s p token)
unfolding Rest.check_session Rpc.check_session
check_session-Agree s p token = abort_if-Agree _ _ s.is_blocked _ _ refl (
    abort_if-Agree _ _ (not (str_eq s.username p.username)) _ _ refl (
      abort_if-Agree _ _ (not (str_eq s.refresh_token token)) _ _ refl
        (>>=-Same now-Agree λ time. last-Agree (ltb s.expires_at time) _ _ refl)))

-- Two answers about one session.
pub record IsSession (json : Rest.LoginUserResponse) (rsp : Rpc.LoginUserResponse) : Type 0 where
  pub session_id : json.session_id ≡ rsp.session_id
  pub access : json.access_token ≡ rsp.access_token
  pub access_expiry : json.access_token_expires_at ≡ rsp.access_token_expires_at
  pub refresh : json.refresh_token ≡ rsp.refresh_token
  pub refresh_expiry : json.refresh_token_expires_at ≡ rsp.refresh_token_expires_at
  pub username : json.user.username ≡ rsp.user.username

module _ (server : Server) (gserver : Grpc.Server) (share : ShareTokens server gserver) where
  renew_access_token-Agree :
      (req : Rest.RenewAccessTokenRequest)
      → Rest.renew_access_token_tags server.libraries.validator req
        ≡ is_empty (Rpc.validate_renew_access_token_request req.refresh_token)
      → Agree IsRenewed
          (translate unauthorized forbidden)
          (Rest.renew_access_token server (some req))
          (Rpc.renew_access_token gserver req.refresh_token)
  unfolding Rest.renew_access_token Rpc.renew_access_token
  renew_access_token-Agree =
      rw (share.maker, share.access)
        (bind_on-Agree _ (Rest.renew_access_token_tags server.libraries.validator) _ _ (λ req h. h)
          (λ req.
            >>=-Same
              (query-Agree (verify_token gserver.token_maker req.refresh_token) _ _ (λ e. refl))
              λ p.
                >>=-Same
                  (query-Agree (get_session p.id) _ _ (not_found_same unauthorized forbidden))
                  λ s. >>=-Same (check_session-Agree s p req.refresh_token) λ u.
                    >>=-Same
                      (query-Agree
                        (create_token gserver.token_maker p.username gserver.access_token_duration)
                        _ _ (λ e. refl))
                      λ access. pure-Agree _ _ (record { token = refl; expiry = refl })))

  login_user-Agree :
      (ctx : GinContext) (gctx : Grpc.Context)
      → ctx.user_agent ≡ (extract_metadata gctx).user_agent
      → ctx.client_ip ≡ (extract_metadata gctx).client_ip
      → (req : Rest.LoginUserRequest)
      → Rest.login_user_tags server.libraries.validator req
        ≡ is_empty (Rpc.validate_login_user_request req.username req.password)
      → Agree IsSession
          (translate unauthorized forbidden)
          (Rest.login_user server ctx (some req))
          (Rpc.login_user gserver gctx req.username req.password)
  unfolding Rest.login_user Rpc.login_user new_user_response convert_user
  login_user-Agree ctx gctx agent ip =
      rw (share.maker, share.access, share.refresh, share.bcrypt, agent, ip)
        (bind_on-Agree _ (Rest.login_user_tags server.libraries.validator) _ _ (λ req h. h)
          (λ req.
            >>=-Same
              (query-Agree (get_user req.username) _ _ (not_found_same unauthorized forbidden))
              λ u.
                abort_if-Agree _ _
                  (not (check_password gserver.bcrypt req.password u.hashed_password)) _ _ refl
                  (>>=-Same
                    (query-Agree
                      (create_token gserver.token_maker u.username gserver.access_token_duration) _
                      _ (λ e. refl))
                    λ access.
                      >>=-Same
                        (query-Agree
                          (create_token gserver.token_maker u.username
                            gserver.refresh_token_duration)
                          _ _ (λ e. refl))
                        λ refresh. >>=-Same (query-Agree (create_session _) _ _ (λ e. refl)) λ s.
                          pure-Agree _ _ (record {
                            session_id = refl;
                            access = refl;
                            access_expiry = refl;
                            refresh = refl;
                            refresh_expiry = refl;
                            username = refl;
                          }))))

-- With the same token maker, durations and bcrypt, and a caller whose user agent and address both see
-- alike, loginUser and renewAccessToken of the REST server do from every world what LoginUser and
-- RenewAccessToken do on the same fields, where the two validations agree on the request: they leave
-- the same world, answer with the same session and tokens, and fail with the status of the RPC's
-- code.
pub sessions-Agree :
    (server : Server) (gserver : Grpc.Server) (ctx : GinContext) (gctx : Grpc.Context)
    (login : Rest.LoginUserRequest) (renew : Rest.RenewAccessTokenRequest)
    → ShareTokens server gserver
    → ctx.user_agent ≡ (extract_metadata gctx).user_agent
    → ctx.client_ip ≡ (extract_metadata gctx).client_ip
    → Rest.login_user_tags server.libraries.validator login
      ≡ is_empty (Rpc.validate_login_user_request login.username login.password)
    → Rest.renew_access_token_tags server.libraries.validator renew
      ≡ is_empty (Rpc.validate_renew_access_token_request renew.refresh_token)
    → Agree IsSession
        (translate unauthorized forbidden)
        (Rest.login_user server ctx (some login))
        (Rpc.login_user gserver gctx login.username login.password)
      × Agree IsRenewed
          (translate unauthorized forbidden)
          (Rest.renew_access_token server (some renew))
          (Rpc.renew_access_token gserver renew.refresh_token)
sessions-Agree server gserver ctx gctx login renew share agent ip valid1 valid2 = (
  login_user-Agree server gserver share ctx gctx agent ip login valid1,
  renew_access_token-Agree server gserver share renew valid2,
)
