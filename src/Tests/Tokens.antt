-- ===== src/Tests/Tokens.antt =====
-- Tokens and sessions of the small bank.
use go_bank.Common.{
  ◌≡◌, refl, ap, sym, ◌∙◌, some_eq, ◌+◌, Bool, true, false, none, some, [], ◌∷◌, eq_iff,
  if◌then◌else◌, ltb, arith,
}
use go_bank.Common.Lists.{find_row}
use go_bank.Util.Password.{check_password}
use go_bank.Val.Validation.{
  validate_string, validate_username, validate_password, is_valid_username,
}
use go_bank.Token.Payload.{Payload, expired_token, new_payload, valid}
use go_bank.Token.Paseto.{IsFaithful, create_token, verify_token}
use go_bank.Token.Paseto.RoundTrip.{verify_token-create_token}
use go_bank.Db.Models.{Session}
use go_bank.Logger.Values.{background}
use go_bank.Db.World.{World, ok, err, exchange}
use go_bank.Db.Query.Sessions.{session_is, get_session, create_session}
use go_bank.Gapi.Server.{Server, Context, caller}
use go_bank.Gapi.Metadata.{md_get, extract_metadata}
use go_bank.Gapi.Users.{convert_user}
use go_bank.Db.Query.Users.{get_user}
use go_bank.Gapi.Guards.Login.{SignedIn, login_user-SignedIn}
use go_bank.Gapi.Sessions.{
  LoginUserResponse, validate_login_user_request, login_user, RenewAccessTokenResponse,
  validate_renew_access_token_request, check_session, renew_access_token,
}
use go_bank.Gapi.Guards.Sessions.{IsLive, renew_access_token-IsLive}
use go_bank.Gapi.Interceptor.{
  is_public_route, fields, is_bearer, bearer_token, authenticate, auth_interceptor,
}
use go_bank.Tests.Data.{bank, server, alice, alice_payload, cipher, is_hers}

hers : (p : Payload) → is_hers p ≡ true → alice_payload ≡ p
hers p h = ground (arith, (eq_iff p.username "alice").0)

cipher-IsFaithful : IsFaithful cipher
cipher-IsFaithful key token p h = go (is_hers p) refl h
  where
    go :
        (b : Bool)
        → is_hers p ≡ b
        → (if b then some "token" else none) ≡ some token
        → cipher.decrypt key token ≡ some p
    go true e h' = ap (cipher.decrypt key) (some_eq (sym h')) ∙ ap some (hers p e)
    go false e h' = cc

abbrev after_token : World
after_token = record bank { drawn = 1 }

token_run :
    create_token server.token_maker "alice" 900 bank ≡ (ok ("token", alice_payload), after_token)
unfolding create_token new_payload exchange
token_run = refl

verify_token-create_token_example :
    (alice_payload.username ≡ "alice")
    × (verify_token server.token_maker "token" bank ≡ (
      (if ltb (bank.clock + 900) bank.clock then err expired_token else ok alice_payload),
      bank,
    ))
verify_token-create_token_example =
    verify_token-create_token server.token_maker "alice" 900 bank after_token bank cipher-IsFaithful
      token_run

abbrev pub with_header : Context
with_header = record {
  auth_payload = none;
  metadata = some (("authorization", "Bearer  token" ∷ []) ∷ []);
  peer = none;
  deadline = none;
  values = background;
}

interceptor_run :
    auth_interceptor server "/pb.GoBank/GetAccount" with_header caller bank
    ≡ (ok alice_payload, bank)
unfolding auth_interceptor is_public_route authenticate md_get fields bearer_token is_bearer
    verify_token valid
interceptor_run = refl

route_closed : is_public_route "/pb.GoBank/GetAccount" ≡ false
unfolding is_public_route
route_closed = refl

abbrev signed_in : World
signed_in = record bank {
  tables = record (bank.tables) {
    sessions =
        record {
          id = 7;
          username = "alice";
          refresh_token = "token";
          user_agent = "";
          client_ip = "";
          is_blocked = false;
          expires_at = 5000;
          created_at = 900;
        }
        ∷ [];
  };
}

abbrev renewed : RenewAccessTokenResponse
renewed = record { access_token = "token"; access_token_expires_at = 1900 }

renew_run :
    renew_access_token server "token" signed_in ≡ (ok renewed, record signed_in { drawn = 1 })
unfolding renew_access_token validate_renew_access_token_request validate_string verify_token valid
    get_session check_session create_token new_payload exchange
renew_run = refl

renew_access_token-IsLive_example :
    (p : Payload) × (s : Session) × (verify_token server.token_maker "token" signed_in
      ≡ (ok p, signed_in))
    × (find_row (session_is p.id) signed_in.tables.sessions ≡ some s)
    × IsLive s p "token" signed_in.clock
    × (renewed.access_token_expires_at ≡ signed_in.clock + server.access_token_duration)
renew_access_token-IsLive_example =
    renew_access_token-IsLive server "token" signed_in (record signed_in { drawn = 1 }) renew_run

-- The same random number each time, and the same duration for both tokens.
abbrev steady : World
steady = record bank { draws = λ n. 7 }

abbrev even_server : Server
even_server = record server { refresh_token_duration = 900 }

abbrev with_session : World
with_session = record steady {
  tables = record (bank.tables) {
    sessions =
        record {
          id = 7;
          username = "alice";
          refresh_token = "token";
          user_agent = "";
          client_ip = "";
          is_blocked = false;
          expires_at = 1900;
          created_at = 1000;
        }
        ∷ [];
  };
  drawn = 2;
}

abbrev welcome : LoginUserResponse
welcome = record {
  session_id = 7;
  access_token = "token";
  refresh_token = "token";
  access_token_expires_at = 1900;
  refresh_token_expires_at = 1900;
  user = convert_user alice;
}

login_run :
    login_user even_server with_header "alice" "password" steady ≡ (ok welcome, with_session)
unfolding login_user validate_login_user_request validate_username validate_password validate_string
    is_valid_username get_user check_password create_token new_payload exchange create_session
    extract_metadata
login_run = refl

login_user-SignedIn_example :
    SignedIn even_server "alice" "password" steady.clock welcome steady.tables with_session.tables
login_user-SignedIn_example =
    login_user-SignedIn even_server with_header "alice" "password" steady with_session login_run
