-- ===== src/Worker/Process.antt =====
-- The consumer's side of worker/task_send_verify_email.go, with util.RandomString. The payload is what
-- json.Unmarshal gives, `none` if it fails.
pub mod Effect
pub mod Link
pub mod Completion
use Prim.Native.String
use Prim.Native.String.{String}
use go_bank.Common.{ℕ, zero, suc, ◌%◌, Option, none, some, [], ◌∷◌, if◌then◌else◌}
use go_bank.Common.Int.{ℤ}
use go_bank.Common.Text.{single, decimal}
use go_bank.Mail.Sender.{GoMail, GmailSender, MailError, send_email}
use go_bank.Db.World.{Action, DbError, is_no_rows, pure, fail, draw, or_else, ◌>>=◌, ◌>>◌}
use go_bank.Db.Query.Users.{get_user}
use go_bank.Db.Query.VerifyEmails.{create_verify_email}

-- The letters and digits of RandomString, which rand.Intn picks.
abbrev pub letters : String
letters = "abcdefghijklmnopqrstuvwxyzABCDEFGHIJKLMNOPQRSTUVWXYZ0123456789"

unfoldable pub random_string : {E : Type 0} → (n : ℕ) → Action E String
random_string zero = pure ""
random_string (suc n) = do
  r ← draw
  rest ← random_string n
  pure (String.◌∷◌ (String.char_at letters (r % 62)) rest)

-- `skip_retry` is an error that asynq.SkipRetry is wrapped in: asynq runs the task again after any other.
pub data TaskError : Type 0 where
  bad_payload skip_retry failed : TaskError

abbrev pub payload_or_fail : Option String → Action TaskError String
payload_or_fail none = fail bad_payload
payload_or_fail (some username) = pure username

abbrev pub get_user_error : DbError → TaskError
get_user_error e = if is_no_rows e then skip_retry else failed

abbrev pub any_failed {ℓ} : {E : Type ℓ} → E → TaskError
any_failed e = failed

infixr 65 ◌<>◌
abbrev ◌<>◌ : String → String → String
s <> t = String.◌++◌ s t

unfoldable pub verify_url : (base_url : String) (email_id : ℤ) (secret_code : String) → String
verify_url base_url email_id secret_code =
    base_url <> "/verify-email?email_id=" <> decimal email_id <> "&secret_code=" <> secret_code

abbrev pub subject : String
subject = "Welcome to GoBank — please verify your email"

unfoldable pub content : (full_name verify_url : String) → String
content full_name verify_url =
    "Hi " <> full_name
    <> ",\n\n\tThanks for registering. Click the link below to verify your email address:\n\n\t"
    <> verify_url
    <> "\n\n\tThis link expires in 15 minutes. If you didn't create this account, ignore this email.\n\t"

pub record TaskProcessor : Type 0 where
  pub go_mail : GoMail
  pub mailer : GmailSender
  pub base_url : String

unfoldable pub process_task_send_verify_email :
    TaskProcessor → (payload : Option String) → Action TaskError (Unit {0})
process_task_send_verify_email processor payload = do
  username ← payload_or_fail payload
  user ← or_else (get_user username) get_user_error
  secret_code ← random_string 32
  verify_email ←
      or_else
        (create_verify_email
          (record { username = user.username; email = user.email; secret_code = secret_code }))
        any_failed
  or_else
      (send_email processor.go_mail processor.mailer subject
        (content user.full_name
          (verify_url processor.base_url verify_email.id verify_email.secret_code))
        (user.email ∷ []) [] [] [])
      any_failed
