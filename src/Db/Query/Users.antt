-- ===== src/Db/Query/Users.antt =====
-- db/sqlc/user.sql.go. `users` has the primary key username and UNIQUE email.
pub mod Update
use go_bank.Common.{
  ℕ, Bool, true, false, ◌&&◌, ◌||◌, not, Option, none, some, [], ◌∷◌, ◌++◌, String, str_eq,
  if◌then◌else◌,
}
use go_bank.Common.Lists.{find_row, has_row, update_row}
use go_bank.Db.Models.{User}
use go_bank.Db.World.{
  Action, DbError, no_rows, pg_error, unique_violation, ok, err, exchange, with_users,
}
use go_bank.Db.Query.Page.{one_row, user_is}

pub record CreateUserParams : Type 0 where
  pub username : String
  pub hashed_password : String
  pub full_name : String
  pub email : String

abbrev pub clashes : CreateUserParams → User → Bool
clashes arg u = str_eq u.username arg.username || str_eq u.email arg.email

-- A new user has never changed the password (the year 1 default) and has no verified email.
abbrev pub new_user : CreateUserParams → ℕ → User
new_user arg now = record {
  username = arg.username;
  hashed_password = arg.hashed_password;
  full_name = arg.full_name;
  email = arg.email;
  password_changed_at = 0;
  created_at = now;
  is_email_verified = false;
}

unfoldable pub create_user : CreateUserParams → Action DbError User
create_user arg = exchange λ w.
    if has_row (clashes arg) w.tables.users
    then (err (pg_error unique_violation), w)
    else (ok (new_user arg w.clock), with_users w (w.tables.users ++ new_user arg w.clock ∷ []))

unfoldable pub get_user : String → Action DbError User
get_user username = exchange λ w. (one_row (find_row (user_is username) w.tables.users), w)

pub record UpdateUserParams : Type 0 where
  pub hashed_password : Option String
  pub password_changed_at : Option ℕ
  pub full_name : Option String
  pub email : Option String
  pub is_email_verified : Option Bool
  pub username : String

abbrev pub coalesce {ℓ} : {A : Type ℓ} → Option A → A → A
coalesce none old = old
coalesce (some new) old = new

abbrev pub updated_user : UpdateUserParams → User → User
updated_user arg u = record u {
  hashed_password = coalesce arg.hashed_password u.hashed_password;
  password_changed_at = coalesce arg.password_changed_at u.password_changed_at;
  full_name = coalesce arg.full_name u.full_name;
  email = coalesce arg.email u.email;
  is_email_verified = coalesce arg.is_email_verified u.is_email_verified;
}

-- Another user has the email.
abbrev pub email_taken : User → User → Bool
email_taken new u = str_eq u.email new.email && not (str_eq u.username new.username)

-- The row is written unless another user has the email.
abbrev pub write_user : (taken : Bool) → UpdateUserParams → User → Action DbError User
write_user true arg u w = (err (pg_error unique_violation), w)
write_user false arg u w = (
  ok (updated_user arg u),
  with_users w (update_row (user_is arg.username) (λ _. updated_user arg u) w.tables.users),
)

abbrev pub update_user_row : UpdateUserParams → Option User → Action DbError User
update_user_row arg none w = (err no_rows, w)
update_user_row arg (some u) w =
    write_user (has_row (email_taken (updated_user arg u)) w.tables.users) arg u w

unfoldable pub update_user : UpdateUserParams → Action DbError User
update_user arg =
    exchange λ w. update_user_row arg (find_row (user_is arg.username) w.tables.users) w
