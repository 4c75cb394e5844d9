-- ===== src/Gapi/Users.antt =====
-- gapi/rpc_create_user.go, rpc_update_user.go, rpc_verify_email.go and converter.go.
use go_bank.Common.{
  ℕ, Bool, not, ◌&&◌, Option, none, some, List, ◌++◌, String, if◌then◌else◌, str_eq,
}
use go_bank.Common.Int.{ℤ}
use go_bank.Util.Password.{hash_password}
use go_bank.Val.Validation.{
  Check, fine, error_if, validate_username, validate_password, validate_email, validate_fullname,
  validate_id, validate_string,
}
use go_bank.Db.Models.{User}
use go_bank.Db.World.{
  DbError, is_no_rows, pg_code, PgCode, unique_violation, pure, fail, now, or_else, ◌>>=◌, ◌>>◌,
}
use go_bank.Db.Query.Users
use go_bank.Db.Query.Users.{UpdateUserParams}
use go_bank.Db.Tx.CreateUser.{create_user_tx}
use go_bank.Db.Tx.VerifyEmail.{verify_email_tx}
use go_bank.Worker.Distribute.{distribute_task_send_verify_email}
use go_bank.Gapi.Status.{
  Status, Rpc, status, not_found, already_exists, permission_denied, internal, field_violation,
  reject, refuse_if,
}
use go_bank.Gapi.Server.{Server, Context, caller}
use go_bank.Gapi.Accounts.{any_internal}

-- pb.User
pub record PbUser : Type 0 where
  pub username : String
  pub full_name : String
  pub email : String
  pub is_email_verified : Bool
  pub password_changed_at : ℕ
  pub created_at : ℕ

unfoldable pub convert_user : User → PbUser
convert_user user = record {
  username = user.username;
  full_name = user.full_name;
  email = user.email;
  is_email_verified = user.is_email_verified;
  password_changed_at = user.password_changed_at;
  created_at = user.created_at;
}

pub record CreateUserRequest : Type 0 where
  pub username : String
  pub full_name : String
  pub email : String
  pub password : String

unfoldable pub validate_create_user_request : Server → CreateUserRequest → List String
validate_create_user_request server req =
    field_violation "username" (validate_username req.username)
    ++ (field_violation "password" (validate_password req.password)
        ++ (field_violation "email" (validate_email server.parse_address req.email)
            ++ field_violation "full_name" (validate_fullname req.full_name)))

-- bcrypt's error is Internal.
abbrev pub hashed_or_fail : Option String → Rpc String
hashed_or_fail none = fail (status internal)
hashed_or_fail (some h) = pure h

abbrev unique_or_internal : Option PgCode → Status
unique_or_internal (some unique_violation) = status already_exists
unique_or_internal _ = status internal

abbrev pub create_user_error : DbError → Status
create_user_error e = unique_or_internal (pg_code e)

unfoldable pub create_user : Server → CreateUserRequest → Rpc PbUser
create_user server req = do
  reject (validate_create_user_request server req)
  hash ← hash_password server.bcrypt req.password
  hashed_password ← hashed_or_fail hash
  user ←
      or_else
        (create_user_tx (record {
          user = record {
            username = req.username;
            hashed_password = hashed_password;
            full_name = req.full_name;
            email = req.email;
          };
          after_create = λ user. distribute_task_send_verify_email user.username;
        }))
        create_user_error
  pure (convert_user user)

pub record UpdateUserRequest : Type 0 where
  pub username : String
  pub full_name : Option String
  pub email : Option String
  pub password : Option String

-- An optional field is validated if the client sent it.
abbrev pub if_sent : (String → Check) → Option String → Check
if_sent validate none = fine
if_sent validate (some value) = validate value

abbrev is_absent : Option String → Bool
is_absent none = Bool.true
is_absent (some _) = Bool.false

unfoldable pub validate_update_user_request : Server → UpdateUserRequest → List String
validate_update_user_request server req =
    field_violation "username" (validate_username req.username)
    ++ (field_violation "full_name" (if_sent validate_fullname req.full_name)
        ++ (field_violation "email" (if_sent (validate_email server.parse_address) req.email)
            ++ (field_violation "password" (if_sent validate_password req.password)
                ++ field_violation "body" (
                    error_if
                      (is_absent req.full_name && is_absent req.email && is_absent req.password)))))

-- The arguments of the update; a new password is hashed and stamped with the time.
abbrev pub update_args :
    UpdateUserRequest → (hash : Option String) (at : Option ℕ) → UpdateUserParams
update_args req hash at = record {
  hashed_password = hash;
  password_changed_at = at;
  full_name = req.full_name;
  email = req.email;
  is_email_verified = none;
  username = req.username;
}

unfoldable pub update_params :
    Server → UpdateUserRequest → (password : Option String) → Rpc UpdateUserParams
update_params server req none = pure (update_args req none none)
update_params server req (some password) = do
  hash ← hash_password server.bcrypt password
  hashed_password ← hashed_or_fail hash
  time ← now
  pure (update_args req (some hashed_password) (some time))

abbrev pub update_user_error : DbError → Status
update_user_error e = if is_no_rows e then status not_found else unique_or_internal (pg_code e)

unfoldable pub update_user : Server → Context → UpdateUserRequest → Rpc PbUser
unfolding update_params
update_user server ctx req = do
  reject (validate_update_user_request server req)
  auth_payload ← caller ctx
  refuse_if (not (str_eq auth_payload.username req.username)) permission_denied
  arg ← update_params server req req.password
  user ← or_else (Users.update_user arg) update_user_error
  pure (convert_user user)

unfoldable pub validate_verify_email_request : (email_id : ℤ) (secret_code : String) → List String
validate_verify_email_request email_id secret_code =
    field_violation "email_id" (validate_id email_id)
    ++ field_violation "secret_code" (validate_string secret_code 32 128)

-- The response is the flag that VerifyEmail reports.
unfoldable pub verify_email : (email_id : ℤ) (secret_code : String) → Rpc Bool
verify_email email_id secret_code = do
  reject (validate_verify_email_request email_id secret_code)
  result ←
      or_else (verify_email_tx (record { email_id = email_id; secret_code = secret_code }))
        any_internal
  pure result.user.is_email_verified
