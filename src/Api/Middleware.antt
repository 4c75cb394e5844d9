-- ===== src/Api/Middleware.antt =====
-- api/middleware.go.
pub mod Access
use go_bank.Common.{not, Option, some, List, [], ◌∷◌, String, str_eq}
use go_bank.Token.Payload.{Payload}
use go_bank.Token.Paseto.{verify_token}
use go_bank.Db.World.{pure, fail, or_else, ◌>>=◌, ◌>>◌}
use go_bank.Gapi.Interceptor.{fields, is_bearer}
use go_bank.Api.Status.{Handler, unauthorized, abort_if}
use go_bank.Api.Server.{Server, GinContext}
use go_bank.Api.Sessions.{any_401}

-- The second of at least two fields, the first of which is "bearer".
unfoldable pub bearer_field : List String → Handler String
bearer_field (auth_type ∷ access_token ∷ more) = do
  abort_if (not (is_bearer auth_type)) unauthorized
  pure access_token
bearer_field _ = fail unauthorized

-- What the middleware does before the handler.
unfoldable pub authenticate : Server → GinContext → Handler Payload
authenticate server ctx = do
  abort_if (str_eq ctx.authorization "") unauthorized
  access_token ← bearer_field (fields ctx.authorization)
  or_else (verify_token server.token_maker access_token) any_401

-- `ctx.Set(authorizationPayloadKey, payload); ctx.Next()`
unfoldable pub auth_middleware :
    {A : Type 0} → Server → GinContext → (GinContext → Handler A) → Handler A
auth_middleware server ctx next =
    authenticate server ctx >>= λ payload. next (record ctx { payload = some payload })
