-- ===== src/Db/Models.antt =====
-- db/sqlc/models.go: the rows of the six tables. Ids, amounts and balances are int64, as integers;
-- a timestamp is a number (microseconds), a UUID the number that its bytes are; a nullable column
-- is an option.
use go_bank.Common.{ℕ, Bool, Option, String}
use go_bank.Common.Int.{ℤ}

pub record Account : Type 0 where
  pub id : ℤ
  pub owner : String
  pub balance : ℤ
  pub currency : String
  pub created_at : ℕ

pub record Entry : Type 0 where
  pub id : ℤ
  pub amount : ℤ
  pub account_id : ℤ
  pub created_at : ℕ
  pub transfer_id : Option ℤ

pub record Session : Type 0 where
  pub id : ℕ
  pub username : String
  pub refresh_token : String
  pub user_agent : String
  pub client_ip : String
  pub is_blocked : Bool
  pub expires_at : ℕ
  pub created_at : ℕ

pub record Transfer : Type 0 where
  pub id : ℤ
  pub from_account_id : ℤ
  pub to_account_id : ℤ
  pub amount : ℤ
  pub created_at : ℕ

pub record User : Type 0 where
  pub username : String
  pub hashed_password : String
  pub full_name : String
  pub email : String
  pub password_changed_at : ℕ
  pub created_at : ℕ
  pub is_email_verified : Bool

pub record VerifyEmail : Type 0 where
  pub id : ℤ
  pub username : String
  pub email : String
  pub secret_code : String
  pub is_used : Bool
  pub created_at : ℕ
  pub expires_at : ℕ
