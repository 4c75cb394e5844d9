-- ===== src/Gapi/Interceptor/Cases.antt =====
-- Every way that a call can take through the interceptor.
use go_bank.Common.{
  ◌≡◌, refl, ap, sym, ◌∙◌, true, false, ◌⊎◌, inl, inr, Option, none, some, List, [], ◌∷◌, String,
  Bool-cases,
}
use go_bank.Token.Payload.{Payload, TokenError}
use go_bank.Token.Paseto.{verify_token}
use go_bank.Db.World.{World, Result, ok, err, bind_result, map_result, or_else, ◌>>=◌}
use go_bank.Gapi.Status.{Rpc, Status, status, unauthenticated}
use go_bank.Gapi.Server.{Server, Context}
use go_bank.Gapi.Metadata.{md_get}
use go_bank.Gapi.Sessions.{token_unauthenticated}
use go_bank.Gapi.Interceptor.{
  is_public_route, fields, is_bearer, bearer_token, header_value, metadata_or_fail, authenticate,
  auth_interceptor,
}
use go_bank.Gapi.Interceptor.Access.{Carries, authenticate-Carries}

-- A call fails as Unauthenticated and changes nothing at all, or it ends well.
abbrev RefusedOr : {A : Type 0} → Rpc A → World → Type 0
RefusedOr {A} m w =
    (m w ≡ (err (status unauthenticated), w)) ⊎ ((a : A) × (w' : World) × (m w ≡ (ok a, w')))

module _ (server : Server) (w : World) where
  verify_refused :
      (token : String)
      → RefusedOr (or_else (verify_token server.token_maker token) token_unauthenticated) w
  unfolding verify_token
  verify_refused token = go (verify_token server.token_maker token w).0 refl
    where
      go :
          (r : Result TokenError Payload)
          → (verify_token server.token_maker token w).0 ≡ r
          → RefusedOr (or_else (verify_token server.token_maker token) token_unauthenticated) w
      go (ok p) e = inr (p, w, ap (λ r. (map_result token_unauthenticated r, w)) e)
      go (err x) e = inl (ap (λ r. (map_result token_unauthenticated r, w)) e)

  bearer_refused :
      (fs : List String)
      → RefusedOr
          (bearer_token fs >>= λ token.
            or_else (verify_token server.token_maker token) token_unauthenticated)
          w
  unfolding bearer_token
  bearer_refused [] = inl refl
  bearer_refused (x ∷ []) = inl refl
  bearer_refused (x ∷ token ∷ rest) = elim (Bool-cases (is_bearer x)) [
    | inl bearer ↦ rw bearer (verify_refused token)
    | inr other ↦ rw other (inl refl)
  ]

  header_refused :
      (vs : List String)
      → RefusedOr
          (header_value vs >>= λ header. bearer_token (fields header) >>= λ token.
            or_else (verify_token server.token_maker token) token_unauthenticated)
          w
  header_refused [] = inl refl
  header_refused (v ∷ vs) = bearer_refused (fields v)

  metadata_refused :
      (o : Option (List (String × List String)))
      → RefusedOr
          (metadata_or_fail o >>= λ md. header_value (md_get "authorization" md) >>= λ header.
            bearer_token (fields header) >>= λ token.
            or_else (verify_token server.token_maker token) token_unauthenticated)
          w
  metadata_refused none = inl refl
  metadata_refused (some md) = header_refused (md_get "authorization" md)

authenticate_refused :
    (server : Server) (ctx : Context) (w : World) → RefusedOr (authenticate server ctx) w
unfolding authenticate
authenticate_refused server ctx w = metadata_refused server w ctx.metadata

-- The three ways of a call: the handler of a public route; a refusal that changes nothing at all; or the
-- handler, in the world of the call, with the payload of a bearer token that the maker verifies.
abbrev pub Ways :
    {A : Type 0}
    → Server
    → (full_method : String) → Context
    → (Context → Rpc A)
    → World
    → Result Status A × World
    → Type 0
Ways server full_method ctx handler w out =
    (is_public_route full_method ≡ true) × (out ≡ handler ctx w)
    ⊎ (is_public_route full_method ≡ false) × (out ≡ (err (status unauthenticated), w))
    ⊎ (is_public_route full_method ≡ false)
      × (p : Payload) × Carries server ctx p w
      × (out ≡ handler (record ctx { auth_payload = some p }) w)

pub auth_interceptor_cases :
    {A : Type 0} (server : Server) (full_method : String) (ctx : Context)
    (handler : Context → Rpc A) (w : World)
    → Ways server full_method ctx handler w (auth_interceptor server full_method ctx handler w)
unfolding auth_interceptor
auth_interceptor_cases {A} server full_method ctx handler w =
    elim (Bool-cases (is_public_route full_method)) [
      | inl free ↦ inl (free, rw free refl)
      | inr closed ↦ elim (authenticate_refused server ctx w) [
        | inl e ↦ inr (inl (closed, rw closed (ap (λ q. bind_result then' q.0 q.1) e)))
        | inr (p, w', e) ↦
            let (carries, same) = authenticate-Carries server ctx w w' e in
            inr (
              inr (
                closed,
                p,
                carries,
                rw closed (
                    ap (λ q. bind_result then' q.0 q.1) e
                    ∙ ap (handler (record ctx { auth_payload = some p })) (sym same)),
              ))
      ]
    ]
  where
    then' : Payload → Rpc A
    then' p = handler (record ctx { auth_payload = some p })
