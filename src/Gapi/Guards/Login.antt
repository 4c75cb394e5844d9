-- ===== src/Gapi/Guards/Login.antt =====
-- What LoginUser has done when it succeeds.
use go_bank.Common.{
  ◌≡◌, refl, ap, sym, ◌∙◌, ℕ, ◌+◌, true, false, not, some, [], ◌∷◌, ◌++◌, String, arith,
}
use mathlib.Core.Path.{subst}
use go_bank.Common.Lists.{find_row, has_row}
use go_bank.Util.Password.{check_password}
use go_bank.Token.Payload.{Payload, new_payload}
use go_bank.Token.Paseto.{PasetoMaker, create_token}
use go_bank.Token.Paseto.RoundTrip.{create_token_made}
use go_bank.Db.Models.{Session, User}
use go_bank.Db.World.{World, Tables, ok, pure, exchange, exchange_ok, on_return, or_else, ◌>>=◌}
use go_bank.Db.Query.Page.{user_is}
use go_bank.Db.Query.Users.{get_user}
use go_bank.Db.Query.Reads.{get_user_found}
use go_bank.Db.Query.Sessions.{CreateSessionParams, session_is, new_session, create_session}
use go_bank.Gapi.Status.{unauthenticated}
use go_bank.Gapi.Server.{Server, Context}
use go_bank.Gapi.Accounts.{not_found_or_internal, any_internal}
use go_bank.Gapi.Metadata.{extract_metadata}
use go_bank.Gapi.Users.{convert_user}
use go_bank.Gapi.Sessions.{
  LoginUserResponse, token_internal, validate_login_user_request, login_user,
}
use go_bank.Gapi.Guards.{after_reject, after_refuse_if, after_or_else, not_is_false}

-- A stored user whose password it is, and a new session for the refresh token of the answer.
pub record SignedIn (server : Server) (username password : String) (time : ℕ)
    (rsp : LoginUserResponse) (t t' : Tables) : Type 0 where
  pub user : User
  pub session : Session
  pub found : find_row (user_is username) t.users ≡ some user
  pub matches : check_password server.bcrypt password user.hashed_password ≡ true
  pub unused : has_row (session_is session.id) t.sessions ≡ false
  pub after : t' ≡ record t { sessions = t.sessions ++ session ∷ [] }
  pub id : rsp.session_id ≡ session.id
  pub owner : session.username ≡ user.username
  pub token : session.refresh_token ≡ rsp.refresh_token
  pub unblocked : session.is_blocked ≡ false
  pub expires : session.expires_at ≡ time + server.refresh_token_duration
  pub answer : rsp.user ≡ convert_user user

get_user_clock :
    (username : String) (w w' : World) {u : User}
    → get_user username w ≡ (ok u, w')
    → w'.clock ≡ w.clock
unfolding get_user exchange
get_user_clock username w w' h = ground arith

create_token_keeps :
    (maker : PasetoMaker) (name : String) (duration : ℕ) (w w' : World) {r : String × Payload}
    → create_token maker name duration w ≡ (ok r, w')
    → (w'.clock ≡ w.clock) × (w'.tables ≡ w.tables)
unfolding create_token new_payload exchange
create_token_keeps maker name duration w w' h = ground arith

create_session_ok :
    (arg : CreateSessionParams) (w w' : World) {s : Session}
    → create_session arg w ≡ (ok s, w')
    → (s ≡ new_session arg w.clock)
      × (has_row (session_is arg.id) w.tables.sessions ≡ false)
      × (w'.tables ≡ record (w.tables) { sessions = w.tables.sessions ++ s ∷ [] })
unfolding create_session
create_session_ok arg w w' h = let (later, done) = exchange_ok _ w w' h in ground arith

abbrev session_of : Context → User → String × Payload → CreateSessionParams
session_of ctx u refresh = record {
  id = refresh.1.id;
  username = u.username;
  refresh_token = refresh.0;
  user_agent = (extract_metadata ctx).user_agent;
  client_ip = (extract_metadata ctx).client_ip;
  is_blocked = false;
  expires_at = refresh.1.expired_at;
}

abbrev answer_of : User → (access refresh : String × Payload) → Session → LoginUserResponse
answer_of u access refresh s = record {
  session_id = s.id;
  access_token = access.0;
  refresh_token = refresh.0;
  access_token_expires_at = access.1.expired_at;
  refresh_token_expires_at = refresh.1.expired_at;
  user = convert_user u;
}

-- From the token of the session on.
session_opened :
    (server : Server) (ctx : Context) (username password : String) (time : ℕ) (t : Tables)
    (u : User) (access refresh : String × Payload) (s : Session) (v v' : World)
    → find_row (user_is username) t.users ≡ some u
    → check_password server.bcrypt password u.hashed_password ≡ true
    → v.tables ≡ t
    → refresh.1.expired_at ≡ time + server.refresh_token_duration
    → create_session (session_of ctx u refresh) v ≡ (ok s, v')
    → SignedIn server username password time (answer_of u access refresh s) t v'.tables
session_opened server ctx username password time t u access refresh s v v' found matches kept until
      h =
    let (new, unused, after) = create_session_ok (session_of ctx u refresh) v v' h in
    record {
      user = u;
      session = s;
      found = found;
      matches = matches;
      unused =
          ap (λ t. has_row (session_is s.id) t.sessions) (sym kept)
          ∙ ap (λ x. has_row (session_is x.id) v.tables.sessions) new
          ∙ unused;
      after = after ∙ ap {A = Tables} (λ t. record t { sessions = t.sessions ++ s ∷ [] }) kept;
      id = refl;
      owner = ap (λ x. x.username) new;
      token = ap (λ x. x.refresh_token) new;
      unblocked = ap (λ x. x.is_blocked) new;
      expires = ap (λ x. x.expires_at) new ∙ until;
      answer = refl;
    }

-- From the check of the password on.
tokens_made :
    (server : Server) (ctx : Context) (username password : String) (t : Tables) (u : User)
    (v w' : World) {rsp : LoginUserResponse}
    → find_row (user_is username) t.users ≡ some u
    → check_password server.bcrypt password u.hashed_password ≡ true
    → v.tables ≡ t
    → (or_else
            (create_token server.token_maker u.username server.access_token_duration)
            token_internal
          >>= λ access.
              (or_else
                  (create_token server.token_maker u.username server.refresh_token_duration)
                  token_internal
                >>= λ refresh.
                    (or_else (create_session (session_of ctx u refresh)) any_internal >>= λ s.
                    pure (answer_of u access refresh s))))
        v
      ≡ (ok rsp, w')
    → SignedIn server username password v.clock rsp t w'.tables
tokens_made server ctx username password t u v w' found matches kept h =
    let make = create_token server.token_maker u.username in
    let (access, v2, made1, h1) =
      after_or_else (make server.access_token_duration) token_internal _ v w' h in
    let (time2, kept2) = create_token_keeps server.token_maker u.username _ v v2 made1 in
    let (refresh, v3, made2, h2) =
      after_or_else (make server.refresh_token_duration) token_internal _ v2 w' h1 in
    let (_, until, _) = create_token_made server.token_maker u.username _ v2 v3 made2 in
    let (_, kept3) = create_token_keeps server.token_maker u.username _ v2 v3 made2 in
    let (s, v4, stored, done) =
      after_or_else (create_session (session_of ctx u refresh)) any_internal _ v3 w' h2 in
    on_return (λ r x. SignedIn server username password v.clock r t x.tables) done
      (session_opened server ctx username password v.clock t u access refresh s v3 v4 found matches
        (kept3 ∙ kept2 ∙ kept) (until ∙ ap (λ c. c + server.refresh_token_duration) time2) stored)

-- LoginUser succeeds only for a stored user whose hash accepts the password; it then stores one new
-- session of that user, unblocked, under an id that was free, which holds the refresh token of the
-- answer and expires after the configured duration, and changes nothing else.
pub login_user-SignedIn :
    (server : Server) (ctx : Context) (username password : String) (w w' : World)
    {rsp : LoginUserResponse}
    → login_user server ctx username password w ≡ (ok rsp, w')
    → SignedIn server username password w.clock rsp w.tables w'.tables
unfolding login_user
login_user-SignedIn server ctx username password w w' {rsp} h =
    let (_, h1) = after_reject (validate_login_user_request username password) _ w w' h in
    let (u, v, got, h2) = after_or_else (get_user username) not_found_or_internal _ w w' h1 in
    let (found, kept) = get_user_found username w v got in
    let (accepted, h3) =
      after_refuse_if (not (check_password server.bcrypt password u.hashed_password))
        unauthenticated _ v w' h2 in
    subst (λ time. SignedIn server username password time rsp w.tables w'.tables)
      (get_user_clock username w v got)
      (tokens_made server ctx username password w.tables u v w' found (not_is_false _ accepted) kept
        h3)
