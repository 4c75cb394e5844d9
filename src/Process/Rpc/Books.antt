-- ===== src/Process/Rpc/Books.antt =====
-- What one call to the handlers of gapi/ does to the table of entries.
use go_bank.Common.{
  ◌≡◌, refl, ap, ◌∙◌, Bool, true, false, Option, none, some, List, [], ◌∷◌, ◌++◌, String,
  if◌then◌else◌,
}
use go_bank.Common.Int.{ℤ, pos, ◌+ℤ◌, eq_ℤ, parts_of_eq, int_laws}
use go_bank.Db.Models.{Entry}
use go_bank.Db.World.{Tables, ◌>>=◌, pure}
use go_bank.Db.Tx.Transfer.{TransferTxParams, TransferTxResult}
use go_bank.Db.Tx.Transfer.Books.{Booked}
use go_bank.Gapi.Status.{Rpc}
use go_bank.Gapi.Transfers.Ledger.{one_more}
use go_bank.Db.Effects.{pure-ReadsOnly}
use go_bank.Db.Effects.Books.{
  Leaves, entries_of, ledger_of, ReadsOnly-Leaves, >>=-Leaves, ledger-entries, leaving,
}
use go_bank.Db.Tx.CreateUser.{create_user_tx, create_user_body}
use go_bank.Db.Tx.VerifyEmail.{verify_email_tx, verify_email_body}
use go_bank.Gapi.Server.{Server, Context}
use go_bank.Gapi.Effects.{
  reading, readers-ReadsOnly, authorize_account-ReadsOnly, update_params-ReadsOnly,
}
use go_bank.Gapi.Accounts.{create_account, update_account, delete_account}
use go_bank.Gapi.Users.{
  CreateUserRequest, UpdateUserRequest, create_user, update_user, verify_email,
}
use go_bank.Gapi.Sessions.{login_user}
use go_bank.Process.Rpc.{
  Call, create_user_call, login_user_call, renew_access_token_call, verify_email_call,
  update_user_call, create_account_call, get_account_call, list_accounts_call, list_entries_call,
  update_account_call, delete_account_call, look_up_account_call, create_transfer_call, run_call,
}

create_user-LeavesLedger :
    (server : Server) (req : CreateUserRequest) → Leaves ledger_of (create_user server req)
unfolding create_user create_user_tx create_user_body
create_user-LeavesLedger server req = search (leaving, reading) depth 20

update_user-LeavesLedger :
    (server : Server) (ctx : Context) (req : UpdateUserRequest)
    → Leaves ledger_of (update_user server ctx req)
unfolding update_user
update_user-LeavesLedger server ctx req =
    search (leaving, reading, update_params-ReadsOnly) depth 20

verify_email-LeavesLedger : (id : _) (code : String) → Leaves ledger_of (verify_email id code)
unfolding verify_email verify_email_tx verify_email_body
verify_email-LeavesLedger id code = search (leaving, reading) depth 20

login_user-LeavesLedger :
    (server : Server) (ctx : Context) (username password : String)
    → Leaves ledger_of (login_user server ctx username password)
unfolding login_user
login_user-LeavesLedger server ctx username password = search (leaving, reading) depth 20

create_account-Leaves :
    (ctx : Context) (currency : String) → Leaves entries_of (create_account ctx currency)
unfolding create_account
create_account-Leaves ctx currency = search (leaving, reading) depth 20

update_account-Leaves :
    (server : Server) (ctx : Context) (id : _) (balance : _)
    → Leaves entries_of (update_account server ctx id balance)
unfolding update_account
update_account-Leaves server ctx id balance =
    search (leaving, reading, authorize_account-ReadsOnly) depth 20

delete_account-Leaves : (ctx : Context) (id : _) → Leaves entries_of (delete_account ctx id)
unfolding delete_account
delete_account-Leaves ctx id = search (leaving, reading, authorize_account-ReadsOnly) depth 20

converted :
    {X A B : Type 0} {part : Tables → X} {m : Rpc A} (g : A → B)
    → Leaves part m
    → Leaves part (m >>= λ a. pure (g a))
converted g r = >>=-Leaves _ _ r (λ a. ReadsOnly-Leaves (pure-ReadsOnly (g a)))

-- Is the call of a method that changes accounts or entries?
abbrev pub is_on_ledger : Call → Bool
is_on_ledger (create_account_call currency) = true
is_on_ledger (update_account_call id balance) = true
is_on_ledger (delete_account_call id) = true
is_on_ledger (create_transfer_call req) = true
is_on_ledger _ = false

-- The other methods leave the accounts and the entries as they are.
pub run_call-LeavesLedger :
    (server : Server) (call : Call) (ctx : Context)
    → is_on_ledger call ≡ false
    → Leaves ledger_of (run_call server call ctx)
unfolding run_call
run_call-LeavesLedger server (create_user_call req) ctx h =
    converted _ (create_user-LeavesLedger server req)
run_call-LeavesLedger server (login_user_call name password) ctx h =
    converted _ (login_user-LeavesLedger server ctx name password)
run_call-LeavesLedger server (renew_access_token_call token) ctx h =
    converted _ (ReadsOnly-Leaves (readers-ReadsOnly server ctx (pos 0) (pos 0) (pos 0) token).4)
run_call-LeavesLedger server (verify_email_call id code) ctx h =
    converted _ (verify_email-LeavesLedger id code)
run_call-LeavesLedger server (update_user_call req) ctx h =
    converted _ (update_user-LeavesLedger server ctx req)
run_call-LeavesLedger server (get_account_call id) ctx h =
    converted _ (ReadsOnly-Leaves (readers-ReadsOnly server ctx id (pos 0) (pos 0) "").0)
run_call-LeavesLedger server (list_accounts_call page_id page_size) ctx h =
    converted _ (ReadsOnly-Leaves (readers-ReadsOnly server ctx (pos 0) page_id page_size "").1)
run_call-LeavesLedger server (list_entries_call page_id page_size) ctx h =
    converted _ (ReadsOnly-Leaves (readers-ReadsOnly server ctx (pos 0) page_id page_size "").3)
run_call-LeavesLedger server (look_up_account_call id) ctx h =
    converted _ (ReadsOnly-Leaves (readers-ReadsOnly server ctx id (pos 0) (pos 0) "").2)
run_call-LeavesLedger server _ ctx h = cc

abbrev pub is_transfer : Call → Bool
is_transfer (create_transfer_call req) = true
is_transfer _ = false

-- No method but CreateTransfer touches the entries.
pub run_call-Leaves :
    (server : Server) (call : Call) (ctx : Context)
    → is_transfer call ≡ false
    → Leaves entries_of (run_call server call ctx)
unfolding run_call
run_call-Leaves server (create_transfer_call req) ctx h = cc
run_call-Leaves server (create_account_call currency) ctx h =
    converted _ (create_account-Leaves ctx currency)
run_call-Leaves server (update_account_call id balance) ctx h =
    converted _ (update_account-Leaves server ctx id balance)
run_call-Leaves server (delete_account_call id) ctx h = converted _ (delete_account-Leaves ctx id)
run_call-Leaves server call ctx h = ledger-entries (run_call-LeavesLedger server call ctx refl)

abbrev of_transfer : ℤ → Option ℤ → Bool
of_transfer id none = false
of_transfer id (some t) = eq_ℤ t id

-- The sum of the entries that point to a transfer.
abbrev pub linked : ℤ → List Entry → ℤ
linked id [] = pos 0
linked id (e ∷ es) =
    let rest = linked id es in if of_transfer id e.transfer_id then rest +ℤ e.amount else rest

-- The entries of every transfer cancel.
pub record IsBalanced (es : List Entry) : Type 0 where
  pub cancel : (id : ℤ) → linked id es ≡ pos 0

linked-last :
    (id : ℤ) (es : List Entry) (e : Entry)
    → linked id (es ++ e ∷ [])
      ≡ (if of_transfer id e.transfer_id then linked id es +ℤ e.amount else linked id es)
linked-last id [] e = refl
linked-last id (x ∷ es) e =
    one_more (of_transfer id x.transfer_id) (of_transfer id e.transfer_id)
      (linked id (es ++ e ∷ [])) (linked id es) x.amount e.amount (linked-last id es e)

pub Booked-IsBalanced :
    (arg : TransferTxParams) (r : TransferTxResult) (t t' : Tables)
    → Booked arg r t t'
    → IsBalanced t.entries
    → IsBalanced t'.entries
Booked-IsBalanced arg r t t' books before = record {
  cancel = λ id.
      ap (linked id) books.entries
      ∙ linked-last id (t.entries ++ r.from_entry ∷ []) r.to_entry
      ∙ rw (linked-last id t.entries r.from_entry, books.from_linked, books.to_linked)
          (go id (eq_ℤ r.transfer.id id));
}
  where
    go :
        (id : ℤ) (b : Bool)
        → (if b
            then (if b then linked id t.entries +ℤ r.from_entry.amount else linked id t.entries)
              +ℤ r.to_entry.amount
            else (if b then linked id t.entries +ℤ r.from_entry.amount else linked id t.entries))
          ≡ pos 0
    go id true = omega (int_laws, parts_of_eq books.balanced, parts_of_eq (before.cancel id))
    go id false = before.cancel id
