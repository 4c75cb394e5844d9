-- ===== src/Db/World.antt =====
-- The database that the statements run against, and the monad of calls that read and change it.
-- A failure of the connection is an event of the environment: `faults` says for each statement to
-- come whether it is lost. Sequences stand apart from the tables, since a rollback leaves them.
-- The queue of tasks (Redis) stands apart from the database for the same reason: it holds the
-- payloads, which are usernames. `draws` are the random numbers to come, of which `drawn` are used.
-- `outbox` is the mail that the SMTP server has taken.
use go_bank.Common.{
  ℕ, suc, ◌≡◌, refl, Bool, false, ◌||◌, Option, none, some, List, [], ◌∷◌, String, if◌then◌else◌,
  arith, ◌⊎◌, inl, inr,
}
use mathlib.Core.Path.{subst₂}
use go_bank.Mail.{Message}
use go_bank.Db.Models.{Account, Entry, Session, Transfer, User, VerifyEmail}

pub record Tables : Type 0 where
  pub accounts : List Account
  pub entries : List Entry
  pub transfers : List Transfer
  pub users : List User
  pub sessions : List Session
  pub verify_emails : List VerifyEmail

pub record World : Type 0 where
  pub tables : Tables
  pub account_seq : ℕ
  pub entry_seq : ℕ
  pub transfer_seq : ℕ
  pub verify_email_seq : ℕ
  pub clock : ℕ
  pub faults : List Bool
  pub queue : List String
  pub draws : ℕ → ℕ
  pub drawn : ℕ
  pub outbox : List Message

-- The SQLSTATE codes that the statements can raise: 23503, 23505, 22003, 2201W and 2201X.
pub data PgCode : Type 0 where
  foreign_key_violation unique_violation numeric_out_of_range invalid_limit invalid_offset : PgCode

-- `both` is an error that wraps two, as the `%w` verbs of execTx do.
pub data DbError : Type 0 where
  no_rows : DbError
  pg_error : PgCode → DbError
  unavailable : DbError
  both : DbError → DbError → DbError

-- `errors.Is(err, pgx.ErrNoRows)`, which looks through wrapped errors.
abbrev pub is_no_rows : DbError → Bool
is_no_rows no_rows = Bool.true
is_no_rows (both e f) = is_no_rows e || is_no_rows f
is_no_rows _ = false

abbrev first_code : Option PgCode → Option PgCode → Option PgCode
first_code (some c) _ = some c
first_code none o = o

-- `errors.As(err, &pgErr)` and the code of the error found, depth first.
abbrev pub pg_code : DbError → Option PgCode
pg_code (pg_error c) = some c
pg_code (both e f) = first_code (pg_code e) (pg_code f)
pg_code _ = none

pub data Result (E A : Type 0) : Type 0 where
  ok : A → Result E A
  err : E → Result E A

-- A call returns its result and the world that it leaves.
abbrev pub Action : Type 0 → Type 0 → Type 0
Action E A = World → Result E A × World

module _ {E : Type 0} where
  abbrev pub pure : {A : Type 0} → A → Action E A
  pure a w = (ok a, w)

  abbrev pub fail : {A : Type 0} → E → Action E A
  fail e w = (err e, w)

  abbrev pub bind_result :
      {A B : Type 0} → (A → Action E B) → Result E A → World → Result E B × World
  bind_result f (ok a) w = f a w
  bind_result f (err e) w = (err e, w)

  infixl 5 ◌>>=◌ ◌>>◌
  abbrev pub ◌>>=◌ : {A B : Type 0} → Action E A → (A → Action E B) → Action E B
  ◌>>=◌ m f w = let (r, w') = m w in bind_result f r w'

  abbrev pub ◌>>◌ : {A B : Type 0} → Action E A → Action E B → Action E B
  m >> k = m >>= λ _. k

  -- Inversion of a chain that ends well.
  pub >>=-eq-ok :
      {A B : Type 0} (m : Action E A) (f : A → Action E B) (w w' : World) {b : B}
      → (m >>= f) w ≡ (ok b, w')
      → (a : A) × (v : World) × (m w ≡ (ok a, v)) × (f a v ≡ (ok b, w'))
  >>=-eq-ok {B} m f w w' {b} h = go (m w).0 (m w).1 refl h
    where
      go :
          (r : Result E _) (v : World)
          → m w ≡ (r, v)
          → bind_result f r v ≡ (ok b, w')
          → (a : _) × (v : World) × (m w ≡ (ok a, v)) × (f a v ≡ (ok b, w'))
      go (ok a) v e h' = (a, v, e, h')
      go (err x) v e h' = cc

  pub pure-eq-ok :
      {A : Type 0} (a b : A) (w w' : World) → pure a w ≡ (ok b, w') → (a ≡ b) × (w ≡ w')
  pure-eq-ok a b w w' h = ground arith

  -- What holds of the value and world handed to `pure` holds of those that came back.
  pub on_return :
      {A : Type 0} (P : A → World → Type 0) {a b : A} {w w' : World}
      → pure a w ≡ (ok b, w')
      → P a w
      → P b w'
  on_return P {a} {b} {w} {w'} h holds =
      let (same, left) = pure-eq-ok a b w w' h in subst₂ P same left holds

  -- A call made under a test is one of the two.
  pub if_either :
      {A : Type 0} (c : Bool) (m k : Action E A) (w : World) {r : Result E A × World}
      → (if c then m else k) w ≡ r
      → (c ≡ Bool.true) × (m w ≡ r) ⊎ (c ≡ false) × (k w ≡ r)
  if_either Bool.true m k w h = inl (refl, h)
  if_either false m k w h = inr (refl, h)

-- Translates the errors of a call.
abbrev pub map_result : {E F A : Type 0} → (E → F) → Result E A → Result F A
map_result f (ok a) = ok a
map_result f (err e) = err (f e)

abbrev pub or_else : {E F A : Type 0} → Action E A → (E → F) → Action F A
or_else m f w = let (r, w') = m w in (map_result f r, w')

-- One exchange with a server: it is lost, and then nothing has happened, or it takes place.
unfoldable pub exchange : {A : Type 0} → Action DbError A → Action DbError A
exchange m w = elim w.faults [
  | [] ↦ m w
  | lost ∷ later ↦
      let w' = record w { faults = later } in if lost then (err unavailable, w') else m w'
]

-- The next random number.
abbrev pub draw : {E : Type 0} → Action E ℕ
draw w = (ok (w.draws w.drawn), record w { drawn = suc w.drawn })

-- The time.
abbrev pub now : {E : Type 0} → Action E ℕ
now w = (ok w.clock, w)

-- An exchange that succeeds is not lost, and one that fails is lost or fails by itself.
pub exchange_ok :
    {A : Type 0} (m : Action DbError A) (w w' : World) {a : A}
    → exchange m w ≡ (ok a, w')
    → (later : List Bool) × (m (record w { faults = later }) ≡ (ok a, w'))
unfolding exchange
exchange_ok m w w' {a} h = go w.faults h
  where
    go :
        (fs : List Bool)
        → exchange m (record w { faults = fs }) ≡ (ok a, w')
        → (later : List Bool) × (m (record w { faults = later }) ≡ (ok a, w'))
    go [] h' = ([], h')
    go (false ∷ later) h' = (later, h')
    go (Bool.true ∷ later) h' = cc

pub exchange_keeps_tables :
    (w w' : World) {r : Result DbError (Unit {0})}
    → exchange (pure tt) w ≡ (r, w')
    → w'.tables ≡ w.tables
unfolding exchange
exchange_keeps_tables w w' h = ground arith

module _ (w : World) where
  abbrev pub with_accounts : List Account → World
  with_accounts rows = record w { tables = record (w.tables) { accounts = rows } }

  abbrev pub with_entries : List Entry → World
  with_entries rows = record w { tables = record (w.tables) { entries = rows } }

  abbrev pub with_transfers : List Transfer → World
  with_transfers rows = record w { tables = record (w.tables) { transfers = rows } }

  abbrev pub with_users : List User → World
  with_users rows = record w { tables = record (w.tables) { users = rows } }

  abbrev pub with_sessions : List Session → World
  with_sessions rows = record w { tables = record (w.tables) { sessions = rows } }

  abbrev pub with_verify_emails : List VerifyEmail → World
  with_verify_emails rows = record w { tables = record (w.tables) { verify_emails = rows } }
