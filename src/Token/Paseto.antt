-- ===== src/Token/Paseto.antt =====
-- token/paseto_maker.go. The encryption of github.com/o1egl/paseto is a parameter; `none` is an error.
pub mod RoundTrip
use go_bank.Common.{ℕ, Option, none, some, ◌≡◌, not, String, len, if◌then◌else◌, ◌==◌}
use go_bank.Db.World.{Action, Result, err, pure, fail, ◌>>=◌}
use go_bank.Token.Payload.{Payload, TokenError, invalid_token, unreadable, new_payload, valid}

pub record Cipher : Type 0 where
  pub encrypt : (key : String) → Payload → Option String
  pub decrypt : (key token : String) → Option Payload

-- What is encrypted can be decrypted with the same key.
abbrev pub IsFaithful : Cipher → Type 0
IsFaithful c =
    (key token : String) (p : Payload) → c.encrypt key p ≡ some token → c.decrypt key token ≡ some p

pub record PasetoMaker : Type 0 where
  pub paseto : Cipher
  pub symmetric_key : String

-- `none` is the error about the size of the key, which is chacha20poly1305.KeySize.
unfoldable pub new_paseto_maker : Cipher → String → Option PasetoMaker
new_paseto_maker paseto key =
    if not (len key == 32) then none else some (record { paseto = paseto; symmetric_key = key })

abbrev sealed : Option String → Payload → Action TokenError (String × Payload)
sealed none p = fail unreadable
sealed (some token) p = pure (token, p)

unfoldable pub create_token :
    PasetoMaker → String → (duration : ℕ) → Action TokenError (String × Payload)
create_token maker username duration = do
  payload ← new_payload username duration
  sealed (maker.paseto.encrypt maker.symmetric_key payload) payload

abbrev opened : Option Payload → (now : ℕ) → Result TokenError Payload
opened none now = err invalid_token
opened (some p) now = valid p now

unfoldable pub verify_token : PasetoMaker → String → Action TokenError Payload
verify_token maker token w = (opened (maker.paseto.decrypt maker.symmetric_key token) w.clock, w)
