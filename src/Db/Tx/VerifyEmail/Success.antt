-- ===== src/Db/Tx/VerifyEmail/Success.antt =====
-- When VerifyEmailTx cannot fail.
use go_bank.Common.{◌≡◌, ap, ◌∙◌, false, some, []}
use go_bank.Common.Lists.{find_row, has_row}
use go_bank.Db.Models.{User, VerifyEmail}
use go_bank.Db.World.{World, pure, ◌>>=◌}
use go_bank.Db.Success.{Runs, then-Runs, pure-Runs, exchange_quiet}
use go_bank.Db.Query.Page.{user_is}
use go_bank.Db.Query.Users.{
  UpdateUserParams, updated_user, email_taken, write_user, update_user_row, update_user,
}
use go_bank.Db.Query.VerifyEmails.{
  UpdateVerifyEmailParams, can_verify, mark_used, use_row, update_verify_email,
}
use go_bank.Db.Tx.Exec.{exec_tx-Runs}
use go_bank.Db.Tx.VerifyEmail.{
  VerifyEmailTxParams, VerifyEmailTxResult, verify_email_body, verify_email_tx,
}
use go_bank.Db.Tx.VerifyEmail.Single.{code_of, set_verified}

module _ (arg : UpdateVerifyEmailParams) (row : VerifyEmail) (w : World) (quiet : w.faults ≡ [])
    (found : find_row (can_verify arg w.clock) w.tables.verify_emails ≡ some row) where
  update_verify_email_run : update_verify_email arg w ≡ use_row arg (some row) w
  unfolding update_verify_email
  update_verify_email_run = exchange_quiet _ w quiet ∙ ap (λ o. use_row arg o w) found

module _ (arg : UpdateUserParams) (user : User) (w : World) (quiet : w.faults ≡ [])
    (found : find_row (user_is arg.username) w.tables.users ≡ some user)
    (free : has_row (email_taken (updated_user arg user)) w.tables.users ≡ false) where
  update_user_run : update_user arg w ≡ write_user false arg user w
  unfolding update_user
  update_user_run =
      exchange_quiet _ w quiet
      ∙ ap (λ o. update_user_row arg o w) found
      ∙ ap (λ b. write_user b arg user w) free

abbrev answer : VerifyEmail → User → VerifyEmailTxResult
answer v u = record { user = u; verify_email = v }

-- With an unused code that has not expired, of a user whose address no other user has, VerifyEmailTx
-- succeeds when no statement meets a fault.
pub verify_email_tx-Runs :
    (arg : VerifyEmailTxParams) (row : VerifyEmail) (user : User) (w : World)
    → w.faults ≡ []
    → find_row (can_verify (code_of arg) w.clock) w.tables.verify_emails ≡ some row
    → find_row (user_is row.username) w.tables.users ≡ some user
    → has_row (email_taken (updated_user (set_verified row.username) user)) w.tables.users ≡ false
    → Runs (verify_email_tx arg) w
unfolding verify_email_tx verify_email_body
verify_email_tx-Runs arg row user w quiet found known free =
    let code = code_of arg in
    let used = (use_row code (some row) w).1 in
    let set = set_verified row.username in
    exec_tx-Runs (verify_email_body arg) w quiet (
      then-Runs {m = update_verify_email code}
        (record {
          value = mark_used row;
          final = used;
          ran = update_verify_email_run code row w quiet found;
          quiet = quiet;
        })
        (λ v. update_user (set_verified v.username) >>= λ u. pure (answer v u))
        (then-Runs {m = update_user set}
          (record {
            value = updated_user set user;
            final = (write_user false set user used).1;
            ran = update_user_run set user used quiet known free;
            quiet = quiet;
          })
          (λ u. pure (answer (mark_used row) u))
          (pure-Runs (answer (mark_used row) (updated_user set user))
            (write_user false set user used).1 quiet)))
