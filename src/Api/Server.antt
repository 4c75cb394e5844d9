-- ===== src/Api/Server.antt =====
-- api/server.go: what the handlers take from the server and from the Gin context of a request.
use go_bank.Common.{ℕ, Option, none, some, String}
use go_bank.Common.Int.{ℤ}
use go_bank.Util.Float.{Float64}
use go_bank.Util.Password.{Bcrypt}
use go_bank.Token.Payload.{Payload}
use go_bank.Token.Paseto.{Cipher, PasetoMaker, new_paseto_maker}
use go_bank.Db.World.{pure, fail}
use go_bank.Api.Status.{Handler, internal_server_error}
use go_bank.Api.Binding.{Validator}

pub record Config : Type 0 where
  pub token_symmetric_key : String
  pub access_token_duration : ℕ
  pub refresh_token_duration : ℕ

-- The third-party code that the handlers call, beside the database.
pub record Libraries : Type 0 where
  pub cipher : Cipher
  pub bcrypt : Bcrypt
  pub validator : Validator
  pub out_of_range : Float64 → ℤ

pub record Server : Type 0 where
  pub token_maker : PasetoMaker
  pub config : Config
  pub libraries : Libraries

abbrev with_maker : Config → Libraries → Option PasetoMaker → Option Server
with_maker config libraries none = none
with_maker config libraries (some maker) =
    some (record { token_maker = maker; config = config; libraries = libraries })

-- NewServer; `none` is the error about the key.
unfoldable pub new_server : Config → Libraries → Option Server
unfolding new_paseto_maker
new_server config libraries =
    with_maker config libraries (new_paseto_maker libraries.cipher config.token_symmetric_key)

-- `authorization` is the header, empty if there is none; `payload` is what the middleware has set.
pub record GinContext : Type 0 where
  pub authorization : String
  pub payload : Option Payload
  pub user_agent : String
  pub client_ip : String

abbrev pub payload_or_panic : Option Payload → Handler Payload
payload_or_panic none = fail internal_server_error
payload_or_panic (some p) = pure p

-- `ctx.MustGet(authorizationPayloadKey)` panics if nothing is set; Gin's recovery answers 500.
abbrev pub must_get : GinContext → Handler Payload
must_get ctx = payload_or_panic ctx.payload
