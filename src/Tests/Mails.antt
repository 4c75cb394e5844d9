-- ===== src/Tests/Mails.antt =====
-- A task of the small bank, and the mail that it sends.
use go_bank.Common.{◌≡◌, refl, false, true, some, [], ◌∷◌, str_eq, arith}
use go_bank.Common.Int.{pos}
use go_bank.Common.Text.{trim_space, digits, decimal}
use go_bank.Db.Models.{VerifyEmail}
use go_bank.Db.World.{World, ok, exchange}
use go_bank.Db.Query.Users.{get_user}
use go_bank.Db.Query.VerifyEmails.{create_verify_email}
use go_bank.Db.Tx.VerifyEmail.{VerifyEmailTxResult, verify_email_tx}
use go_bank.Mail.{Message}
use go_bank.Mail.Sender.{GoMail, GmailSender, new_gmail_sender, attach, dial_and_send, send_email}
use go_bank.Mail.Sender.Delivery.{message}
use go_bank.Worker.Process.{
  TaskProcessor, random_string, verify_url, content, subject, process_task_send_verify_email,
}
use go_bank.Worker.Process.Effect.{Welcomed}
use go_bank.Worker.Process.Completion.{Mailed, process_task-verify_email_tx}
use go_bank.Tests.Data.{bank, alice}

abbrev go_mail : GoMail
go_mail = record {
  parse_address = λ s. true;
  from_format = λ name address. true;
  to = λ s. true;
  cc = λ s. true;
  bcc = λ s. true;
  new_client = λ name password. true;
  stat = λ path. str_eq path "a.txt";
}

abbrev sender : GmailSender
sender = record {
  name = "GoBank";
  from_email_address = "bank@mail.com";
  from_email_password = "secret";
}

sender_trimmed : new_gmail_sender go_mail " GoBank\n" "bank@mail.com " "secret" ≡ ok sender
unfolding new_gmail_sender trim_space
sender_trimmed = refl

abbrev processor : TaskProcessor
processor = record { go_mail = go_mail; mailer = sender; base_url = "https://bank" }

url :
    verify_url "https://bank" (pos 120) "abc"
    ≡ "https://bank/verify-email?email_id=120&secret_code=abc"
unfolding verify_url decimal digits
url = refl

abbrev greeting : Message
greeting = record {
  from_name = "GoBank";
  from_address = "bank@mail.com";
  to = "bob@mail.com" ∷ [];
  cc = [];
  bcc = [];
  subject = "Hello";
  body = "Bob";
  attachments = "a.txt" ∷ [];
}

abbrev after_greeting : World
after_greeting = record bank { outbox = greeting ∷ [] }

greeted :
    send_email go_mail sender "Hello" "Bob" ("bob@mail.com" ∷ []) [] [] (" a.txt" ∷ []) bank
    ≡ (ok tt, after_greeting)
unfolding send_email attach trim_space dial_and_send exchange
greeted = refl

abbrev code_row : VerifyEmail
code_row = record {
  id = pos 1;
  username = "alice";
  email = "alice@mail.com";
  secret_code = "hijklmnopqrstuvwxyzABCDEFGHIJKLM";
  is_used = false;
  created_at = 1000;
  expires_at = 900001000;
}

abbrev welcome : Message
welcome =
    message go_mail sender subject
      (content "Some One" (verify_url "https://bank" (pos 1) code_row.secret_code))
      ("alice@mail.com" ∷ []) [] [] []

abbrev after_task : World
after_task = record bank {
  tables = record (bank.tables) { verify_emails = code_row ∷ [] };
  verify_email_seq = 1;
  drawn = 32;
  outbox = welcome ∷ [];
}

abbrev later : World
later = record after_task { clock = 2000 }

task_run : process_task_send_verify_email processor (some "alice") bank ≡ (ok tt, after_task)
unfolding process_task_send_verify_email get_user exchange random_string create_verify_email
    send_email attach dial_and_send
task_run = refl

process_task-verify_email_tx_example :
    (done : Welcomed processor "alice" bank after_task) × Mailed processor
      (pos 1)
      done.secret_code
      "alice@mail.com"
      bank
      after_task
    × ((r : VerifyEmailTxResult) × (v' : World) × (verify_email_tx
            (record { email_id = pos 1; secret_code = done.secret_code })
            later
          ≡ (ok r, v'))
        × (r.user ≡ record alice { is_email_verified = true }))
process_task-verify_email_tx_example =
    process_task-verify_email_tx processor "alice" bank after_task later alice task_run refl refl
      refl refl (omega arith) refl
