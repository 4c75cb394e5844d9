-- ===== src/Db/Query/VerifyEmails.antt =====
-- db/sqlc/verify_email.sql.go. `verify_emails` has a foreign key to users; a new row is unused and
-- expires 15 minutes after it was made.
use go_bank.Common.{
  ℕ, ◌+◌, ◌*◌, Bool, true, false, not, ◌&&◌, Option, none, some, [], ◌∷◌, ◌++◌, String, str_eq,
  if◌then◌else◌, ltb,
}
use go_bank.Common.Int.{ℤ, pos, eq_ℤ}
use go_bank.Common.Lists.{find_row, has_row, update_row}
use go_bank.Db.Models.{VerifyEmail}
use go_bank.Db.World.{
  Action, DbError, no_rows, pg_error, foreign_key_violation, ok, err, exchange, with_verify_emails,
}
use go_bank.Db.Query.Page.{user_is}

pub record CreateVerifyEmailParams : Type 0 where
  pub username : String
  pub email : String
  pub secret_code : String

-- 15 minutes in microseconds.
abbrev pub lifetime : ℕ
lifetime = 15 * 60 * 1_000_000

unfoldable pub create_verify_email : CreateVerifyEmailParams → Action DbError VerifyEmail
create_verify_email arg = exchange λ w.
    let n = w.verify_email_seq + 1 in
    let row : VerifyEmail = record {
      id = pos n;
      username = arg.username;
      email = arg.email;
      secret_code = arg.secret_code;
      is_used = false;
      created_at = w.clock;
      expires_at = w.clock + lifetime;
    } in
    let w' = record w { verify_email_seq = n } in
    if has_row (user_is arg.username) w.tables.users
    then (ok row, with_verify_emails w' (w.tables.verify_emails ++ row ∷ []))
    else (err (pg_error foreign_key_violation), w')

pub record UpdateVerifyEmailParams : Type 0 where
  pub id : ℤ
  pub secret_code : String

-- The WHERE clause, at the time `now`.
abbrev pub can_verify : UpdateVerifyEmailParams → ℕ → VerifyEmail → Bool
can_verify arg now v =
    eq_ℤ v.id arg.id
    && str_eq v.secret_code arg.secret_code
    && not v.is_used
    && ltb now v.expires_at

abbrev pub mark_used : VerifyEmail → VerifyEmail
mark_used v = record v { is_used = true }

abbrev pub use_row : UpdateVerifyEmailParams → Option VerifyEmail → Action DbError VerifyEmail
use_row arg none w = (err no_rows, w)
use_row arg (some v) w = (
  ok (mark_used v),
  with_verify_emails w (update_row (can_verify arg w.clock) mark_used w.tables.verify_emails),
)

unfoldable pub update_verify_email : UpdateVerifyEmailParams → Action DbError VerifyEmail
update_verify_email arg =
    exchange λ w. use_row arg (find_row (can_verify arg w.clock) w.tables.verify_emails) w
