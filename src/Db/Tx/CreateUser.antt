-- ===== src/Db/Tx/CreateUser.antt =====
-- `Store.CreateUserTx` (db/sqlc/tx_create_user.go).
use go_bank.Db.Models.{User}
use go_bank.Db.World.{Action, DbError, pure, ◌>>=◌, ◌>>◌}
use go_bank.Db.Query.Users.{CreateUserParams, create_user}
use go_bank.Db.Tx.Exec.{exec_tx}

pub record CreateUserTxParams : Type 0 where
  pub user : CreateUserParams
  pub after_create : User → Action DbError (Unit {0})

unfoldable pub create_user_body : CreateUserTxParams → Action DbError User
create_user_body arg = do user ← create_user arg.user; arg.after_create user; pure user

unfoldable pub create_user_tx : CreateUserTxParams → Action DbError User
create_user_tx arg = exec_tx (create_user_body arg)
