-- ===== src/Gapi/Guards/Sessions.antt =====
-- What RenewAccessToken and LoginUser have checked when they succeed.
use go_bank.Common.{
  Bool, arith, ◌≡◌, refl, ap, sym, ◌∙◌, ℕ, ◌+◌, true, false, not, some, String, str_eq, ltb,
}
use mathlib.Core.Path.{subst}
use go_bank.Common.Lists.{find_row}
use go_bank.Token.Payload.{Payload}
use go_bank.Token.Paseto.{create_token, verify_token}
use go_bank.Token.Paseto.RoundTrip.{verify_token_stays, create_token_made}
use go_bank.Db.Models.{Session}
use go_bank.Db.World.{World, ok, pure-eq-ok, >>=-eq-ok, exchange}
use go_bank.Db.Query.Sessions.{session_is, get_session}
use go_bank.Db.Query.Reads.{get_session_found}
use go_bank.Gapi.Status.{Code, refuse_if, unauthenticated}
use go_bank.Gapi.Server.{Server}
use go_bank.Gapi.Accounts.{not_found_or_internal}
use go_bank.Gapi.Sessions.{
  RenewAccessTokenResponse, token_unauthenticated, token_internal,
  validate_renew_access_token_request, check_session, renew_access_token,
}
use go_bank.Gapi.Guards.{after_reject, after_refuse_if, after_or_else, same_text}

-- A session that RenewAccessToken accepts for a refresh token at a time.
pub record IsLive (s : Session) (p : Payload) (refresh_token : String) (time : ℕ) : Type 0 where
  pub unblocked : s.is_blocked ≡ false
  pub username : s.username ≡ p.username
  pub token : s.refresh_token ≡ refresh_token
  pub in_time : ltb s.expires_at time ≡ false

refuse_if_passed :
    (b : Bool) (c : Code) (w w' : World) → refuse_if b c w ≡ (ok tt, w') → (b ≡ false) × (w ≡ w')
refuse_if_passed true c w w' h = cc
refuse_if_passed false c w w' h = (refl, ap (λ p. p.1) h)

check_session-IsLive :
    (s : Session) (p : Payload) (token : String) (w w' : World)
    → check_session s p token w ≡ (ok tt, w')
    → IsLive s p token w.clock × (w ≡ w')
unfolding check_session
check_session-IsLive s p token w w' h =
    let (unblocked, h1) = after_refuse_if s.is_blocked unauthenticated _ w w' h in
    let (user, h2) =
      after_refuse_if (not (str_eq s.username p.username)) unauthenticated _ w w' h1 in
    let (same, h3) =
      after_refuse_if (not (str_eq s.refresh_token token)) unauthenticated _ w w' h2 in
    let (in_time, left) = refuse_if_passed (ltb s.expires_at w.clock) unauthenticated w w' h3 in
    (
      record {
        unblocked = unblocked;
        username = same_text _ _ user;
        token = same_text _ _ same;
        in_time = in_time;
      },
      left,
    )

get_session_clock :
    (id : ℕ) (w w' : World) {s : Session} → get_session id w ≡ (ok s, w') → w'.clock ≡ w.clock
unfolding get_session exchange
get_session_clock id w w' h = ground arith

-- RenewAccessToken succeeds only for a refresh token that the maker has verified and whose session is
-- stored, is not blocked, belongs to the token's user, was made with this very token, and has not
-- expired; the new access token expires after the configured duration.
pub renew_access_token-IsLive :
    (server : Server) (token : String) (w w' : World) {rsp : RenewAccessTokenResponse}
    → renew_access_token server token w ≡ (ok rsp, w')
    → (p : Payload) × (s : Session) × (verify_token server.token_maker token w ≡ (ok p, w))
      × (find_row (session_is p.id) w.tables.sessions ≡ some s)
      × IsLive s p token w.clock
      × (rsp.access_token_expires_at ≡ w.clock + server.access_token_duration)
unfolding renew_access_token
renew_access_token-IsLive server token w w' {rsp} h =
    let maker = server.token_maker in
    let (_, h1) = after_reject (validate_renew_access_token_request token) _ w w' h in
    let (p, v1, verified, h2) =
      after_or_else (verify_token maker token) token_unauthenticated _ w w' h1 in
    let e1 = verify_token_stays maker token w v1 verified in
    let (s, v2, got, h3) = after_or_else (get_session p.id) not_found_or_internal _ v1 w' h2 in
    let (found, _) = get_session_found p.id v1 v2 got in
    let time = get_session_clock p.id v1 v2 got ∙ ap (λ u. u.clock) (sym e1) in
    let (_, v3, passed, h4) = >>=-eq-ok (check_session s p token) _ v2 w' h3 in
    let (live, e3) = check_session-IsLive s p token v2 v3 passed in
    let (access, v4, made, done) =
      after_or_else (create_token maker p.username server.access_token_duration) token_internal _ v3
        w' h4 in
    let (_, until, _) = create_token_made maker p.username _ v3 v4 made in
    let (same, _) = pure-eq-ok _ rsp v4 w' done in
    (
      p,
      s,
      verified ∙ ap (λ u. (ok p, u)) (sym e1),
      ap (λ u. find_row (session_is p.id) u.tables.sessions) e1 ∙ found,
      subst (IsLive s p token) time live,
      ap (λ r. r.access_token_expires_at) (sym same)
          ∙ until
          ∙ ap (λ t. t + server.access_token_duration) (ap (λ u. u.clock) (sym e3) ∙ time),
    )
