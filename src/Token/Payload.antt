-- ===== src/Token/Payload.antt =====
-- token/payload.go. Times are numbers of microseconds, durations too, which the configuration gives
-- as non-negative; a UUID is a number of 128 bits. The source of random numbers may fail.
use go_bank.Common.{ℕ, ◌+◌, ◌%◌, ◌^◌, String, if◌then◌else◌, ltb}
use go_bank.Db.World.{Action, DbError, Result, ok, err, or_else, exchange, pure, draw, now, ◌>>=◌}

-- `unreadable` is an error of uuid.NewRandom or of the encryption.
pub data TokenError : Type 0 where
  expired_token invalid_token unreadable : TokenError

pub record Payload : Type 0 where
  pub id : ℕ
  pub username : String
  pub issued_at : ℕ
  pub expired_at : ℕ

abbrev failed : DbError → TokenError
failed _ = unreadable

-- uuid.NewRandom
new_random : Action TokenError ℕ
new_random = do n ← or_else (exchange draw) failed; pure (n % 2 ^ 128)

unfoldable pub new_payload : String → (duration : ℕ) → Action TokenError Payload
unfolding new_random
new_payload username duration = do
  token_id ← new_random
  issued ← now
  pure (record {
    id = token_id;
    username = username;
    issued_at = issued;
    expired_at = issued + duration;
  })

-- `Payload.Valid`, at the time `now`.
unfoldable pub valid : Payload → (now : ℕ) → Result TokenError Payload
valid p now = if ltb p.expired_at now then err expired_token else ok p
