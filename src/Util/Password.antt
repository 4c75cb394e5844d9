-- ===== src/Util/Password.antt =====
-- util/password.go, over golang.org/x/crypto/bcrypt: its hash takes random salt and may be refused.
use go_bank.Common.{ℕ, Bool, true, Option, some, String, ◌≡◌}
use go_bank.Db.World.{Action, draw, ◌>>=◌, pure}

pub record Bcrypt : Type 0 where
  pub generate_from_password : (salt : ℕ) (password : String) → Option String
  pub compare_hash_and_password : (hashed_password password : String) → Bool

-- A hash accepts the password that it was made from.
abbrev pub IsFaithful : Bcrypt → Type 0
IsFaithful b =
    (salt : ℕ) (password hash : String)
    → b.generate_from_password salt password ≡ some hash
    → b.compare_hash_and_password hash password ≡ true

-- `none` is an error.
unfoldable pub hash_password : {E : Type 0} → Bcrypt → String → Action E (Option String)
hash_password b password = do salt ← draw; pure (b.generate_from_password salt password)

-- `true` is no error.
unfoldable pub check_password : Bcrypt → (password hashed_password : String) → Bool
check_password b password hashed_password = b.compare_hash_and_password hashed_password password
