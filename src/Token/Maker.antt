-- ===== src/Token/Maker.antt =====
-- token/maker.go: the interface of a token maker, which both makers implement.
use go_bank.Common.{ℕ, String}
use go_bank.Db.World.{Action}
use go_bank.Token.Payload.{Payload, TokenError}
use go_bank.Token.Paseto as Paseto
use go_bank.Token.Jwt as Jwt

pub record Maker : Type 0 where
  pub create_token : (username : String) (duration : ℕ) → Action TokenError (String × Payload)
  pub verify_token : (token : String) → Action TokenError Payload

unfoldable pub paseto_maker : Paseto.PasetoMaker → Maker
paseto_maker maker = record {
  create_token = Paseto.create_token maker;
  verify_token = Paseto.verify_token maker;
}

unfoldable pub jwt_maker : Jwt.JwtMaker → Maker
jwt_maker maker = record {
  create_token = Jwt.create_token maker;
  verify_token = Jwt.verify_token maker;
}
