-- ===== src/Api/Middleware/Access.antt =====
-- Which requests the middleware lets through to a handler.
use go_bank.Common.{
  ◌≡◌, refl, ap, true, ◌⊎◌, inl, inr, some, List, [], ◌∷◌, String, str_eq, Bool-cases,
}
use go_bank.Token.Payload.{Payload, TokenError}
use go_bank.Token.Paseto.{verify_token}
use go_bank.Db.World.{World, Result, ok, err, bind_result, map_result, or_else, ◌>>=◌}
use go_bank.Gapi.Interceptor.{fields, is_bearer}
use go_bank.Api.Status.{Handler, unauthorized}
use go_bank.Api.Server.{Server, GinContext}
use go_bank.Api.Sessions.{any_401}
use go_bank.Api.Middleware.{bearer_field, authenticate, auth_middleware}

-- The request carries a token of type "bearer" in its authorization header, and the maker verifies it.
pub record Bears (server : Server) (header : String) (p : Payload) (w : World) : Type 0 where
  pub auth_type : String
  pub token : String
  pub rest : List String
  pub parts : fields header ≡ auth_type ∷ token ∷ rest
  pub bearer : is_bearer auth_type ≡ true
  pub verified : verify_token server.token_maker token w ≡ (ok p, w)

-- What a call of the middleware's checks comes to.
abbrev pub Verdict : Server → String → Handler Payload → World → Type 0
Verdict server header m w =
    (m w ≡ (err unauthorized, w)) ⊎ ((p : Payload) × Bears server header p w × (m w ≡ (ok p, w)))

module _ (server : Server) (header : String) (w : World) where
  verify-Verdict :
      (kind token : String) (rest : List String)
      → fields header ≡ kind ∷ token ∷ rest
      → is_bearer kind ≡ true
      → Verdict server header (or_else (verify_token server.token_maker token) any_401) w
  unfolding verify_token
  verify-Verdict kind token rest parts bearer = go (verify_token server.token_maker token w).0 refl
    where
      go :
          (r : Result TokenError Payload)
          → (verify_token server.token_maker token w).0 ≡ r
          → Verdict server header (or_else (verify_token server.token_maker token) any_401) w
      go (ok p) e = inr (
        p,
        record {
          auth_type = kind;
          token = token;
          rest = rest;
          parts = parts;
          bearer = bearer;
          verified = ap (λ r. (r, w)) e;
        },
        ap (λ r. (map_result any_401 r, w)) e,
      )
      go (err x) e = inl (ap (λ r. (map_result any_401 r, w)) e)

  field-Verdict :
      (fs : List String)
      → fields header ≡ fs
      → Verdict server header
          (bearer_field fs >>= λ token. or_else (verify_token server.token_maker token) any_401)
          w
  unfolding bearer_field
  field-Verdict [] e = inl refl
  field-Verdict (x ∷ []) e = inl refl
  field-Verdict (x ∷ token ∷ rest) e = elim (Bool-cases (is_bearer x)) [
    | inl bearer ↦ rw bearer (verify-Verdict x token rest e bearer)
    | inr other ↦ rw other (inl refl)
  ]

pub authenticate-Verdict :
    (server : Server) (ctx : GinContext) (w : World)
    → Verdict server ctx.authorization (authenticate server ctx) w
unfolding authenticate
authenticate-Verdict server ctx w = elim (Bool-cases (str_eq ctx.authorization "")) [
  | inl absent ↦ rw absent (inl refl)
  | inr sent ↦ rw sent (field-Verdict server ctx.authorization w (fields ctx.authorization) refl)
]

-- A call behind the middleware is answered with Unauthorized and changes nothing at all, or the request bears a
-- token that the maker verifies and the handler runs, in the world of the call, with the payload of
-- that token.
pub auth_middleware_cases :
    {A : Type 0} (server : Server) (ctx : GinContext) (next : GinContext → Handler A) (w : World)
    → (auth_middleware server ctx next w ≡ (err unauthorized, w))
      ⊎ ((p : Payload) × Bears server ctx.authorization p w
          × (auth_middleware server ctx next w ≡ next (record ctx { payload = some p }) w))
unfolding auth_middleware
auth_middleware_cases {A} server ctx next w = elim (authenticate-Verdict server ctx w) [
  | inl e ↦ inl (ap (λ q. bind_result then q.0 q.1) e)
  | inr (p, bears, e) ↦ inr (p, bears, ap (λ q. bind_result then q.0 q.1) e)
]
  where
    then : Payload → Handler A
    then p = next (record ctx { payload = some p })
