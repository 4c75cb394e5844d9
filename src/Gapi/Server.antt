-- ===== src/Gapi/Server.antt =====
-- gapi/server.go: what the handlers take from the server and from the context of a call. Third-party
-- code (bcrypt, the mail address parser, the processor's float conversion) enters as functions.
use go_bank.Common.{ℕ, Bool, Option, none, some, List, String}
use go_bank.Common.Int.{ℤ}
use go_bank.Util.Float.{Float64}
use go_bank.Util.Password.{Bcrypt}
use go_bank.Token.Payload.{Payload}
use go_bank.Token.Paseto.{Cipher, PasetoMaker, new_paseto_maker}
use go_bank.Util.Config.{Config}
use go_bank.Logger.Values.{Values}
use go_bank.Db.World.{pure, fail}
use go_bank.Gapi.Status.{Rpc, status, unauthenticated}

pub record Server : Type 0 where
  pub token_maker : PasetoMaker
  pub access_token_duration : ℕ
  pub refresh_token_duration : ℕ
  pub bcrypt : Bcrypt
  pub parse_address : String → Bool
  pub out_of_range : Float64 → ℤ

-- The third-party code that the handlers call, beside the database.
pub record Libraries : Type 0 where
  pub cipher : Cipher
  pub bcrypt : Bcrypt
  pub parse_address : String → Bool
  pub out_of_range : Float64 → ℤ

abbrev with_maker : Config → Libraries → Option PasetoMaker → Option Server
with_maker config libraries none = none
with_maker config libraries (some maker) = some (record {
  token_maker = maker;
  access_token_duration = config.access_token_duration;
  refresh_token_duration = config.refresh_token_duration;
  bcrypt = libraries.bcrypt;
  parse_address = libraries.parse_address;
  out_of_range = libraries.out_of_range;
})

-- NewServer; none is the error about the key.
unfoldable pub new_server : Config → Libraries → Option Server
unfolding new_paseto_maker
new_server config libraries =
    with_maker config libraries (new_paseto_maker libraries.cipher config.token_symmetric_key)

-- `auth_payload` is what the interceptor has put into the context and `values` what the logger has;
-- `metadata`, `peer` and `deadline` are what gRPC says of the call.
pub record Context : Type 0 where
  pub auth_payload : Option Payload
  pub metadata : Option (List (String × List String))
  pub peer : Option String
  pub deadline : Option ℕ
  pub values : Values

abbrev pub payload_or_fail : Option Payload → Rpc Payload
payload_or_fail none = fail (status unauthenticated)
payload_or_fail (some p) = pure p

-- `authPayload, ok := ctx.Value(authPayloadKey).(*token.Payload); if !ok || authPayload == nil …`
abbrev pub caller : Context → Rpc Payload
caller ctx = payload_or_fail ctx.auth_payload
