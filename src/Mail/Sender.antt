-- ===== src/Mail/Sender.antt =====
-- mail/sender.go. What go-mail, net/mail and the file system accept are parameters; the SMTP server takes a
-- message or the exchange with it is lost.
pub mod Delivery
use go_bank.Common.{
  Bool, true, false, not, ◌&&◌, List, [], ◌∷◌, ◌++◌, String, str_eq, if◌then◌else◌,
}
use go_bank.Common.Text.{trim_space}
use go_bank.Mail.{Message}
use go_bank.Db.World.{Action, Result, ok, err, DbError, exchange, pure, fail, or_else, ◌>>=◌, ◌>>◌}

pub record GoMail : Type 0 where
  pub parse_address : String → Bool
  pub from_format : (name address : String) → Bool
  pub to : List String → Bool
  pub cc : List String → Bool
  pub bcc : List String → Bool
  pub new_client : (username password : String) → Bool
  pub stat : (path : String) → Bool

pub record GmailSender : Type 0 where
  pub name : String
  pub from_email_address : String
  pub from_email_password : String

pub data SenderError : Type 0 where
  empty_name invalid_address empty_password : SenderError

unfoldable pub new_gmail_sender :
    GoMail → (name from_email_address from_email_password : String) → Result SenderError GmailSender
new_gmail_sender lib name from_email_address from_email_password =
    let sender : GmailSender = record {
      name = trim_space name;
      from_email_address = trim_space from_email_address;
      from_email_password = trim_space from_email_password;
    } in
    if str_eq sender.name ""
    then err empty_name
    else if not (lib.parse_address sender.from_email_address)
    then err invalid_address
    else if str_eq sender.from_email_password ""
    then err empty_password
    else ok sender

-- Where SendEmail gives up.
pub data MailError : Type 0 where
  no_recipient bad_from bad_to bad_cc bad_bcc empty_path no_file no_client not_sent : MailError

abbrev pub error_if : Bool → MailError → Action MailError (Unit {0})
error_if true e = fail e
error_if false e = pure tt

abbrev pub is_none : List String → Bool
is_none [] = true
is_none (x ∷ xs) = false

-- The paths to attach, trimmed.
unfoldable pub attach : GoMail → (files : List String) → Action MailError (List String)
attach lib [] = pure []
attach lib (file ∷ files) = do
  error_if (str_eq (trim_space file) "") empty_path
  error_if (not (lib.stat (trim_space file))) no_file
  paths ← attach lib files
  pure (trim_space file ∷ paths)

abbrev pub any_not_sent : DbError → MailError
any_not_sent e = not_sent

-- DialAndSend
unfoldable pub dial_and_send : Message → Action MailError (Unit {0})
dial_and_send m =
    or_else (exchange (λ w. (ok tt, record w { outbox = w.outbox ++ m ∷ [] }))) any_not_sent

unfoldable pub send_email :
    GoMail
    → GmailSender
    → (subject content : String) (to cc bcc attach_files : List String)
    → Action MailError (Unit {0})
send_email lib sender subject content to cc bcc attach_files = do
  error_if (is_none to) no_recipient
  error_if (not (lib.from_format sender.name sender.from_email_address)) bad_from
  error_if (not (lib.to to)) bad_to
  error_if (not (is_none cc) && not (lib.cc cc)) bad_cc
  error_if (not (is_none bcc) && not (lib.bcc bcc)) bad_bcc
  paths ← attach lib attach_files
  error_if (not (lib.new_client sender.from_email_address sender.from_email_password)) no_client
  dial_and_send (record {
    from_name = sender.name;
    from_address = sender.from_email_address;
    to = to;
    cc = cc;
    bcc = bcc;
    subject = subject;
    body = content;
    attachments = paths;
  })
