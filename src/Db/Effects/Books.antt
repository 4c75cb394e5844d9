-- ===== src/Db/Effects/Books.antt =====
-- Calls that leave a part of the tables as it is, whether they succeed or fail.
use go_bank.Common.{◌≡◌, refl, ap, sym, ◌∙◌, List, arith, String}
use go_bank.Db.Models.{Account, Entry}
use go_bank.Common.Int.{ℤ}
use go_bank.Db.World.{
  World, Tables, Action, DbError, Result, ok, err, bind_result, or_else, exchange, ◌>>=◌,
}
use go_bank.Db.Effects.{ReadsOnly}
use go_bank.Db.Tx.Exec.{exec_tx, exec_tx-atomic, exec_tx_ok}
use go_bank.Db.Query.Accounts.{
  CreateAccountParams, create_account, delete_account, UpdateAccountParams, update_account,
}
use go_bank.Db.Query.Users.{CreateUserParams, UpdateUserParams, create_user, update_user}
use go_bank.Db.Query.Sessions.{CreateSessionParams, create_session}
use go_bank.Db.Query.VerifyEmails.{UpdateVerifyEmailParams, update_verify_email}
use go_bank.Worker.Distribute.{distribute_task_send_verify_email}

-- The part of the tables that `part` shows is the same after the call.
pub record Leaves {X E A : Type 0} (part : Tables → X) (m : Action E A) : Type 0 where
  pub left : (w : World) → part (m w).1.tables ≡ part w.tables

abbrev pub entries_of : Tables → List Entry
entries_of t = t.entries

-- The tables that say who has what.
abbrev pub ledger_of : Tables → List Account × List Entry
ledger_of t = (t.accounts, t.entries)

module _ {X : Type 0} {part : Tables → X} {E A : Type 0} where
  pub ReadsOnly-Leaves : {m : Action E A} → ReadsOnly m → Leaves part m
  ReadsOnly-Leaves r = record { left = λ w. ap part (r.same w) }

module _ {X : Type 0} {part : Tables → X} {E A B : Type 0} (m : Action E A)
    (f : A → Action E B) where
  bind_result-left :
      (r : Result E A) (w : World)
      → ((a : A) → Leaves part (f a))
      → part (bind_result f r w).1.tables ≡ part w.tables
  bind_result-left (ok a) w s = (s a).left w
  bind_result-left (err e) w s = refl

  pub >>=-Leaves : Leaves part m → ((a : A) → Leaves part (f a)) → Leaves part (m >>= f)
  >>=-Leaves r s = record { left = λ w. bind_result-left (m w).0 (m w).1 s ∙ r.left w }

module _ {X : Type 0} {part : Tables → X} {E F A : Type 0} {m : Action E A} (f : E → F) where
  pub or_else-Leaves : Leaves part m → Leaves part (or_else m f)
  or_else-Leaves r = record { left = λ w. r.left w }

-- A transaction restores the tables or leaves them as its body did.
pub exec_tx-Leaves :
    {X : Type 0} {part : Tables → X} {A : Type 0} (fn : Action DbError A)
    → Leaves part fn
    → Leaves part (exec_tx fn)
exec_tx-Leaves {part} {A} fn r = record { left = λ w. go w (exec_tx fn w).0 (exec_tx fn w).1 refl }
  where
    go :
        (w : World) (x : Result DbError A) (w' : World)
        → exec_tx fn w ≡ (x, w')
        → part w'.tables ≡ part w.tables
    go w (err e) w' h = ap part (exec_tx-atomic fn w w' h)
    go w (ok a) w' h =
        let (v, v', begun, _, ran, same) = exec_tx_ok fn w w' h in
        ap part same ∙ ap (λ p. part p.1.tables) (sym ran) ∙ r.left v ∙ ap part begun

-- What leaves the accounts and the entries leaves the entries.
pub ledger-entries : {E A : Type 0} {m : Action E A} → Leaves ledger_of m → Leaves entries_of m
ledger-entries r = record { left = λ w. ap (λ x. x.1) (r.left w) }

pub create_account-Leaves : (arg : CreateAccountParams) → Leaves entries_of (create_account arg)
unfolding create_account exchange
create_account-Leaves arg = record { left = λ w. ground arith }

pub delete_account-Leaves : (id : ℤ) → Leaves entries_of (delete_account id)
unfolding delete_account exchange
delete_account-Leaves id = record { left = λ w. ground arith }

pub update_account-Leaves : (arg : UpdateAccountParams) → Leaves entries_of (update_account arg)
unfolding update_account exchange
update_account-Leaves arg = record { left = λ w. ground arith }

pub create_user-Leaves : (arg : CreateUserParams) → Leaves ledger_of (create_user arg)
unfolding create_user exchange
create_user-Leaves arg = record { left = λ w. ground arith }

pub update_user-Leaves : (arg : UpdateUserParams) → Leaves ledger_of (update_user arg)
unfolding update_user exchange
update_user-Leaves arg = record { left = λ w. ground arith }

pub create_session-Leaves : (arg : CreateSessionParams) → Leaves ledger_of (create_session arg)
unfolding create_session exchange
create_session-Leaves arg = record { left = λ w. ground arith }

pub update_verify_email-Leaves :
    (arg : UpdateVerifyEmailParams) → Leaves ledger_of (update_verify_email arg)
unfolding update_verify_email exchange
update_verify_email-Leaves arg = record { left = λ w. ground arith }

pub distribute_task-Leaves :
    (username : String) → Leaves ledger_of (distribute_task_send_verify_email username)
unfolding distribute_task_send_verify_email exchange
distribute_task-Leaves username = record { left = λ w. ground arith }

pub ruleset leaving = (
  >>=-Leaves, or_else-Leaves, ReadsOnly-Leaves, exec_tx-Leaves, create_account-Leaves,
  delete_account-Leaves, update_account-Leaves, create_user-Leaves, update_user-Leaves,
  create_session-Leaves, update_verify_email-Leaves, distribute_task-Leaves,
)
