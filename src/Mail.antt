-- ===== src/Mail.antt =====
-- mail: the messages, and the sender that puts them together.
pub mod Sender
use go_bank.Common.{List, String}

-- What a message of go-mail has been given when it is sent.
pub record Message : Type 0 where
  pub from_name : String
  pub from_address : String
  pub to : List String
  pub cc : List String
  pub bcc : List String
  pub subject : String
  pub body : String
  pub attachments : List String
