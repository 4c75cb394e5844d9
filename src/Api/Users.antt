-- ===== src/Api/Users.antt =====
-- api/user.go.
use go_bank.Common.{Bool, ℕ, ◌&&◌, Option, none, some, String}
use go_bank.Util.Password.{hash_password}
use go_bank.Db.Models.{User}
use go_bank.Db.World.{DbError, pg_code, PgCode, unique_violation, pure, fail, or_else, ◌>>=◌}
use go_bank.Db.Query.Users
use go_bank.Api.Status.{HttpStatus, Handler, forbidden, internal_server_error}
use go_bank.Api.Binding.{Validator, should_bind}
use go_bank.Api.Server.{Server}

pub record CreateUserRequest : Type 0 where
  pub username : String
  pub password : String
  pub full_name : String
  pub email : String

unfoldable pub create_user_tags : Validator → CreateUserRequest → Bool
create_user_tags v req =
    (v.required_text req.username && v.alphanum req.username)
    && (v.required_text req.password && v.min_text 8 req.password)
    && v.required_text req.full_name
    && (v.required_text req.email && v.email req.email)

pub record UserResponse : Type 0 where
  pub username : String
  pub full_name : String
  pub email : String
  pub password_changed_at : ℕ
  pub created_at : ℕ

-- newUserResponse (api/auth.go), which createUser writes out.
unfoldable pub new_user_response : User → UserResponse
new_user_response user = record {
  username = user.username;
  full_name = user.full_name;
  email = user.email;
  password_changed_at = user.password_changed_at;
  created_at = user.created_at;
}

abbrev pub hashed_or_500 : Option String → Handler String
hashed_or_500 none = fail internal_server_error
hashed_or_500 (some hash) = pure hash

abbrev user_code : Option PgCode → HttpStatus
user_code (some unique_violation) = forbidden
user_code _ = internal_server_error

abbrev pub create_user_error : DbError → HttpStatus
create_user_error e = user_code (pg_code e)

-- Unlike gapi, this stores the row outside a transaction and enqueues no task.
unfoldable pub create_user : Server → Option CreateUserRequest → Handler UserResponse
create_user server body = do
  req ← should_bind body (create_user_tags server.libraries.validator)
  hash ← hash_password server.libraries.bcrypt req.password
  hashed_password ← hashed_or_500 hash
  user ←
      or_else
        (Users.create_user (record {
          username = req.username;
          hashed_password = hashed_password;
          full_name = req.full_name;
          email = req.email;
        }))
        create_user_error
  pure (new_user_response user)
