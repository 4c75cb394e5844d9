-- ===== src/Gapi/Interceptor/Access.antt =====
-- Which calls the interceptor lets through to a handler.
use go_bank.Common.{
  ◌≡◌, ap, sym, ◌∙◌, true, false, not, Option, none, some, List, [], ◌∷◌, String, if◌then◌else◌,
}
use go_bank.Token.Payload.{Payload}
use go_bank.Token.Paseto.{verify_token}
use go_bank.Token.Paseto.RoundTrip.{verify_token_stays}
use go_bank.Db.World.{World, ok, or_else, >>=-eq-ok, pure-eq-ok, ◌>>=◌}
use go_bank.Gapi.Status.{Rpc, unauthenticated}
use go_bank.Gapi.Server.{Server, Context}
use go_bank.Gapi.Metadata.{md_get}
use go_bank.Gapi.Sessions.{token_unauthenticated}
use go_bank.Gapi.Guards.{after_refuse_if, or_else_passed, not_is_false}
use go_bank.Gapi.Interceptor.{
  is_public_route, fields, is_bearer, bearer_token, header_value, metadata_or_fail, authenticate,
  auth_interceptor,
}

-- The call carries a token of type "bearer" in its authorization header, and the maker has verified it.
pub record Carries (server : Server) (ctx : Context) (p : Payload) (w : World) : Type 0 where
  pub metadata : List (String × List String)
  pub sent : ctx.metadata ≡ some metadata
  pub header : String
  pub more : List String
  pub first : md_get "authorization" metadata ≡ header ∷ more
  pub auth_type : String
  pub token : String
  pub rest : List String
  pub parts : fields header ≡ auth_type ∷ token ∷ rest
  pub bearer : is_bearer auth_type ≡ true
  pub verified : verify_token server.token_maker token w ≡ (ok p, w)

metadata_sent :
    (o : Option (List (String × List String))) (w w' : World) {md : List (String × List String)}
    → metadata_or_fail o w ≡ (ok md, w')
    → (o ≡ some md) × (w ≡ w')
metadata_sent none w w' h = cc
metadata_sent (some md) w w' h = let (same, left) = pure-eq-ok md _ w w' h in (ap some same, left)

header_first :
    (vs : List String) (w w' : World) {v : String}
    → header_value vs w ≡ (ok v, w')
    → (more : List String) × (vs ≡ v ∷ more) × (w ≡ w')
header_first [] w w' h = cc
header_first (x ∷ xs) w w' h =
    let (same, left) = pure-eq-ok x _ w w' h in (xs, ap (λ v. v ∷ xs) same, left)

token_second :
    (fs : List String) (w w' : World) {token : String}
    → bearer_token fs w ≡ (ok token, w')
    → (kind : String) × (rest : List String) × (fs ≡ kind ∷ token ∷ rest)
      × (is_bearer kind ≡ true)
      × (w ≡ w')
unfolding bearer_token
token_second [] w w' h = cc
token_second (x ∷ []) w w' h = cc
token_second (x ∷ y ∷ rest) w w' h =
    let (bearer, done) = after_refuse_if (not (is_bearer x)) unauthenticated _ w w' h in
    let (same, left) = pure-eq-ok y _ w w' done in
    (x, rest, ap (λ t. x ∷ t ∷ rest) same, not_is_false _ bearer, left)

verified_at :
    (server : Server) (token : String) (u w w' : World) {p : Payload}
    → w ≡ u
    → or_else (verify_token server.token_maker token) token_unauthenticated u ≡ (ok p, w')
    → (verify_token server.token_maker token w ≡ (ok p, w)) × (w ≡ w')
verified_at server token u w w' {p} e h =
    let passed =
      or_else_passed (verify_token server.token_maker token) token_unauthenticated u w' h in
    let stays : u ≡ w' = verify_token_stays server.token_maker token u w' passed in
    (
      ap (verify_token server.token_maker token) e
          ∙ passed
          ∙ ap (λ x. (ok p, x)) (sym stays ∙ sym e),
      e ∙ stays,
    )

pub authenticate-Carries :
    (server : Server) (ctx : Context) (w w' : World) {p : Payload}
    → authenticate server ctx w ≡ (ok p, w')
    → Carries server ctx p w × (w ≡ w')
unfolding authenticate
authenticate-Carries server ctx w w' h =
    let (md, v1, got, h1) = >>=-eq-ok (metadata_or_fail ctx.metadata) _ w w' h in
    let (sent, e1) = metadata_sent ctx.metadata w v1 got in
    let (header, v2, read, h2) = >>=-eq-ok (header_value (md_get "authorization" md)) _ v1 w' h1 in
    let (more, first, e2) = header_first _ v1 v2 read in
    let (token, v3, split, h3) = >>=-eq-ok (bearer_token (fields header)) _ v2 w' h2 in
    let (kind, rest, parts, bearer, e3) = token_second _ v2 v3 split in
    let (verified, e4) = verified_at server token v3 w w' (e1 ∙ e2 ∙ e3) h3 in
    (
      record {
        metadata = md;
        sent = sent;
        header = header;
        more = more;
        first = first;
        auth_type = kind;
        token = token;
        rest = rest;
        parts = parts;
        bearer = bearer;
        verified = verified;
      },
      e4,
    )

-- On a route that is not public, a call that succeeds carries a bearer token that the maker has verified, and
-- the handler has run in the world of the call with the payload of that token, whatever payload the
-- context held before.
pub auth_interceptor-Carries :
    {A : Type 0} (server : Server) (full_method : String) (ctx : Context)
    (handler : Context → Rpc A) (w w' : World) {a : A}
    → is_public_route full_method ≡ false
    → auth_interceptor server full_method ctx handler w ≡ (ok a, w')
    → (p : Payload) × Carries server ctx p w
      × (handler (record ctx { auth_payload = some p }) w ≡ (ok a, w'))
unfolding auth_interceptor
auth_interceptor-Carries server full_method ctx handler w w' closed h =
    let run = authenticate server ctx >>= λ p. handler (record ctx { auth_payload = some p }) in
    let guarded : run w ≡ (ok _, w') =
      sym (ap (λ b. (if b then handler ctx else run) w) closed) ∙ h in
    let (p, v, passed, done) = >>=-eq-ok (authenticate server ctx) _ w w' guarded in
    let (carries, same) = authenticate-Carries server ctx w v passed in
    (p, carries, ap (handler (record ctx { auth_payload = some p })) same ∙ done)
