-- ===== src/Token/Jwt.antt =====
-- token/jwt_maker.go. The signing and parsing of github.com/golang-jwt/jwt/v5 are a parameter.
pub mod RoundTrip
use go_bank.Common.{ℕ, Option, none, some, String, len, if◌then◌else◌, ltb}
use go_bank.Db.World.{Action, Result, ok, err, pure, fail, ◌>>=◌}
use go_bank.Token.Payload.{
  Payload, TokenError, expired_token, invalid_token, unreadable, new_payload,
}

-- jwtClaims with its RegisteredClaims; the text of a UUID is the UUID here.
pub record JwtClaims : Type 0 where
  pub id : ℕ
  pub username : String
  pub registered_id : ℕ
  pub subject : String
  pub issued_at : ℕ
  pub expires_at : ℕ

-- What ParseWithClaims gives: the claims, jwt.ErrTokenExpired, or another error, which a signing method
-- that is not HMAC is as well.
pub data Parsed : Type 0 where
  claims : JwtClaims → Parsed
  token_expired : Parsed
  malformed : Parsed

-- `numeric_date` is jwt.NewNumericDate, `sign` SignedString with HS256, and `parse` is at a time.
pub record JwtLibrary : Type 0 where
  pub numeric_date : ℕ → ℕ
  pub sign : (key : String) → JwtClaims → Option String
  pub parse : (key token : String) (now : ℕ) → Parsed

unfoldable pub to_payload : JwtClaims → Payload
to_payload c = record {
  id = c.id;
  username = c.username;
  issued_at = c.issued_at;
  expired_at = c.expires_at;
}

pub record JwtMaker : Type 0 where
  pub jwt : JwtLibrary
  pub secret_key : String

abbrev pub min_secret_key_size : ℕ
min_secret_key_size = 32

-- `none` is the error about the size of the key.
unfoldable pub new_jwt_maker : JwtLibrary → (secret_key : String) → Option JwtMaker
new_jwt_maker jwt secret_key =
    if ltb (len secret_key) min_secret_key_size
    then none
    else some (record { jwt = jwt; secret_key = secret_key })

abbrev pub claims_of : JwtLibrary → Payload → JwtClaims
claims_of jwt p = record {
  id = p.id;
  username = p.username;
  registered_id = p.id;
  subject = p.username;
  issued_at = jwt.numeric_date p.issued_at;
  expires_at = jwt.numeric_date p.expired_at;
}

abbrev pub signed : Option String → Payload → Action TokenError (String × Payload)
signed none p = fail unreadable
signed (some token) p = pure (token, p)

unfoldable pub create_token :
    JwtMaker → (username : String) (duration : ℕ) → Action TokenError (String × Payload)
create_token maker username duration = do
  payload ← new_payload username duration
  signed (maker.jwt.sign maker.secret_key (claims_of maker.jwt payload)) payload

abbrev pub checked : Parsed → Result TokenError Payload
checked (claims c) = ok (to_payload c)
checked token_expired = err expired_token
checked malformed = err invalid_token

unfoldable pub verify_token : JwtMaker → (token : String) → Action TokenError Payload
verify_token maker token w = (checked (maker.jwt.parse maker.secret_key token w.clock), w)
