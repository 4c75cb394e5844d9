-- ===== src/Db/Tx/VerifyEmail/Single.antt =====
-- What VerifyEmailTx has done when it succeeds.
use go_bank.Common.{◌≡◌, refl, ap, sym, ℕ, true, Option, none, some, String}
use mathlib.Core.Path.{subst, subst₂}
use go_bank.Common.Lists.{find_row, update_row}
use go_bank.Db.Models.{VerifyEmail}
use go_bank.Db.World.{World, Tables, ok, >>=-eq-ok, pure-eq-ok, exchange_ok, on_return}
use go_bank.Db.Query.Users.{UpdateUserParams, update_user}
use go_bank.Db.Query.Users.Update.{Rewritten, update_user-Rewritten}
use go_bank.Db.Query.VerifyEmails.{
  UpdateVerifyEmailParams, can_verify, mark_used, use_row, update_verify_email,
}
use go_bank.Db.Tx.Exec.{exec_tx_ok}
use go_bank.Db.Tx.VerifyEmail.{
  VerifyEmailTxParams, VerifyEmailTxResult, verify_email_body, verify_email_tx,
}

-- A row with the id and the secret that is unused and has not expired at the time was found and
-- marked as used.
pub record Used (arg : UpdateVerifyEmailParams) (time : ℕ) (new : VerifyEmail) (t t' : Tables)
    : Type 0 where
  pub row : VerifyEmail
  pub found : find_row (can_verify arg time) t.verify_emails ≡ some row
  pub made : new ≡ mark_used row
  pub after :
      t' ≡ record t { verify_emails = update_row (can_verify arg time) mark_used t.verify_emails }

use_row-Used :
    (arg : UpdateVerifyEmailParams) (o : Option VerifyEmail) (w w' : World) {new : VerifyEmail}
    → find_row (can_verify arg w.clock) w.tables.verify_emails ≡ o
    → use_row arg o w ≡ (ok new, w')
    → Used arg w.clock new w.tables w'.tables
use_row-Used arg none w w' e h = cc
use_row-Used arg (some row) w w' e h =
    let (same, left) = pure-eq-ok (mark_used row) _ _ w' h in
    record { row = row; found = e; made = sym same; after = ap (λ u. u.tables) (sym left) }

update_verify_email-Used :
    (arg : UpdateVerifyEmailParams) (w w' : World) {new : VerifyEmail}
    → update_verify_email arg w ≡ (ok new, w')
    → Used arg w.clock new w.tables w'.tables
unfolding update_verify_email
update_verify_email-Used arg w w' h =
    let (later, done) = exchange_ok _ w w' h in
    use_row-Used arg _ (record w { faults = later }) w' refl done

abbrev pub code_of : VerifyEmailTxParams → UpdateVerifyEmailParams
code_of arg = record { id = arg.email_id; secret_code = arg.secret_code }

-- The change of the user: the flag is set and nothing else.
abbrev pub set_verified : String → UpdateUserParams
set_verified username = record {
  hashed_password = none;
  password_changed_at = none;
  full_name = none;
  email = none;
  is_email_verified = some true;
  username = username;
}

-- The code was used, and then the flag of its user was set.
pub record Verified (arg : VerifyEmailTxParams) (time : ℕ) (r : VerifyEmailTxResult) (t t' : Tables)
    : Type 0 where
  pub between : Tables
  pub code : Used (code_of arg) time r.verify_email t between
  pub user : Rewritten (set_verified r.verify_email.username) r.user between t'

verify_email_body-Verified :
    (arg : VerifyEmailTxParams) (w w' : World) {r : VerifyEmailTxResult}
    → verify_email_body arg w ≡ (ok r, w')
    → Verified arg w.clock r w.tables w'.tables
unfolding verify_email_body
verify_email_body-Verified arg w w' h =
    let (code, v, used, h1) = >>=-eq-ok (update_verify_email (code_of arg)) _ w w' h in
    let (user, u, set, done) = >>=-eq-ok (update_user (set_verified code.username)) _ v w' h1 in
    on_return (λ r x. Verified arg w.clock r w.tables x.tables) done
      (record {
        between = v.tables;
        code = update_verify_email-Used (code_of arg) w v used;
        user = update_user-Rewritten (set_verified code.username) v u set;
      })

-- VerifyEmailTx succeeds only with a stored code that has the given id and secret, is unused, and has not
-- expired when the transaction begins; the code is then marked as used, the flag of the code's user is
-- set, and nothing else has changed.
pub verify_email_tx-Verified :
    (arg : VerifyEmailTxParams) (w w' : World) {r : VerifyEmailTxResult}
    → verify_email_tx arg w ≡ (ok r, w')
    → Verified arg w.clock r w.tables w'.tables
unfolding verify_email_tx
verify_email_tx-Verified arg w w' {r} h =
    let (v, v', before, clock, ran, after) = exec_tx_ok (verify_email_body arg) w w' h in
    subst₂ (λ t t'. Verified arg w.clock r t t') before (sym after)
      (subst (λ c. Verified arg c r v.tables v'.tables) clock
        (verify_email_body-Verified arg v v' ran))
