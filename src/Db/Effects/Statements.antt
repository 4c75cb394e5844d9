-- ===== src/Db/Effects/Statements.antt =====
-- Which statements only read, and that all are atomic.
use go_bank.Common.{arith, String, ℕ}
use go_bank.Common.Int.{ℤ}
use go_bank.Db.World.{exchange}
use go_bank.Db.Effects.{ReadsOnly, IsAtomic}
use go_bank.Db.Query.Accounts.{
  CreateAccountParams, create_account, delete_account, get_account, ListAccountsParams,
  list_accounts, UpdateAccountParams, update_account,
}
use go_bank.Db.Query.Entries.{ListActivityEntriesParams, list_activity_entries}
use go_bank.Db.Query.Users.{CreateUserParams, UpdateUserParams, create_user, get_user, update_user}
use go_bank.Db.Query.Sessions.{CreateSessionParams, create_session, get_session}

pub get_account-ReadsOnly : (id : ℤ) → ReadsOnly (get_account id)
unfolding get_account exchange
get_account-ReadsOnly id = record { same = λ w. ground arith }

pub list_accounts-ReadsOnly : (arg : ListAccountsParams) → ReadsOnly (list_accounts arg)
unfolding list_accounts exchange
list_accounts-ReadsOnly arg = record { same = λ w. ground arith }

pub list_activity_entries-ReadsOnly :
    (arg : ListActivityEntriesParams) → ReadsOnly (list_activity_entries arg)
unfolding list_activity_entries exchange
list_activity_entries-ReadsOnly arg = record { same = λ w. ground arith }

pub get_user-ReadsOnly : (username : String) → ReadsOnly (get_user username)
unfolding get_user exchange
get_user-ReadsOnly username = record { same = λ w. ground arith }

pub get_session-ReadsOnly : (id : ℕ) → ReadsOnly (get_session id)
unfolding get_session exchange
get_session-ReadsOnly id = record { same = λ w. ground arith }

pub create_account-IsAtomic : (arg : CreateAccountParams) → IsAtomic (create_account arg)
unfolding create_account exchange
create_account-IsAtomic arg = record { undone = λ w w' e h. ground arith }

pub delete_account-IsAtomic : (id : ℤ) → IsAtomic (delete_account id)
unfolding delete_account exchange
delete_account-IsAtomic id = record { undone = λ w w' e h. ground arith }

pub update_account-IsAtomic : (arg : UpdateAccountParams) → IsAtomic (update_account arg)
unfolding update_account exchange
update_account-IsAtomic arg = record { undone = λ w w' e h. ground arith }

pub update_user-IsAtomic : (arg : UpdateUserParams) → IsAtomic (update_user arg)
unfolding update_user exchange
update_user-IsAtomic arg = record { undone = λ w w' e h. ground arith }

pub create_session-IsAtomic : (arg : CreateSessionParams) → IsAtomic (create_session arg)
unfolding create_session exchange
create_session-IsAtomic arg = record { undone = λ w w' e h. ground arith }

pub create_user-IsAtomic : (arg : CreateUserParams) → IsAtomic (create_user arg)
unfolding create_user exchange
create_user-IsAtomic arg = record { undone = λ w w' e h. ground arith }
