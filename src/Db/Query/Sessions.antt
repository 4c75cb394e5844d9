-- ===== src/Db/Query/Sessions.antt =====
-- db/sqlc/session.sql.go. `sessions` has the primary key id and a foreign key to users.
use go_bank.Common.{ℕ, Bool, [], ◌∷◌, ◌++◌, String, if◌then◌else◌, ◌==◌}
use go_bank.Common.Lists.{find_row, has_row}
use go_bank.Db.Models.{Session}
use go_bank.Db.World.{
  Action, DbError, pg_error, unique_violation, foreign_key_violation, ok, err, exchange,
  with_sessions,
}
use go_bank.Db.Query.Page.{one_row, user_is}

pub record CreateSessionParams : Type 0 where
  pub id : ℕ
  pub username : String
  pub refresh_token : String
  pub user_agent : String
  pub client_ip : String
  pub is_blocked : Bool
  pub expires_at : ℕ

abbrev pub session_is : ℕ → Session → Bool
session_is id s = s.id == id

abbrev pub new_session : CreateSessionParams → ℕ → Session
new_session arg now = record {
  id = arg.id;
  username = arg.username;
  refresh_token = arg.refresh_token;
  user_agent = arg.user_agent;
  client_ip = arg.client_ip;
  is_blocked = arg.is_blocked;
  expires_at = arg.expires_at;
  created_at = now;
}

unfoldable pub create_session : CreateSessionParams → Action DbError Session
create_session arg = exchange λ w.
    if has_row (session_is arg.id) w.tables.sessions
    then (err (pg_error unique_violation), w)
    else if has_row (user_is arg.username) w.tables.users
    then (
      ok (new_session arg w.clock),
      with_sessions w (w.tables.sessions ++ new_session arg w.clock ∷ []),
    )
    else (err (pg_error foreign_key_violation), w)

unfoldable pub get_session : ℕ → Action DbError Session
get_session id = exchange λ w. (one_row (find_row (session_is id) w.tables.sessions), w)
