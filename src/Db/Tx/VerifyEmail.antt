-- ===== src/Db/Tx/VerifyEmail.antt =====
-- `Store.VerifyEmailTx` (db/sqlc/tx_verify_email.go).
pub mod Single
pub mod Confirmed
pub mod Success
use go_bank.Common.{String, true, none, some}
use go_bank.Common.Int.{ℤ}
use go_bank.Db.Models.{User, VerifyEmail}
use go_bank.Db.World.{Action, DbError, pure, ◌>>=◌}
use go_bank.Db.Query.Users.{update_user}
use go_bank.Db.Query.VerifyEmails.{update_verify_email}
use go_bank.Db.Tx.Exec.{exec_tx}

pub record VerifyEmailTxParams : Type 0 where
  pub email_id : ℤ
  pub secret_code : String

pub record VerifyEmailTxResult : Type 0 where
  pub user : User
  pub verify_email : VerifyEmail

unfoldable pub verify_email_body : VerifyEmailTxParams → Action DbError VerifyEmailTxResult
verify_email_body arg = do
  verify_email ← update_verify_email (record { id = arg.email_id; secret_code = arg.secret_code })
  user ← update_user (record {
    hashed_password = none;
    password_changed_at = none;
    full_name = none;
    email = none;
    is_email_verified = some true;
    username = verify_email.username;
  })
  pure (record { user = user; verify_email = verify_email })

unfoldable pub verify_email_tx : VerifyEmailTxParams → Action DbError VerifyEmailTxResult
verify_email_tx arg = exec_tx (verify_email_body arg)
