-- ===== src/Tests/Changes.antt =====
-- Changes of accounts and users of the small bank.
use go_bank.Common.{
  some, String, ◌≡◌, ◌≢◌, refl, none, true, false, List, [], ◌∷◌, ◌++◌, if◌then◌else◌,
}
use go_bank.Common.Int.{ℤ, pos, eq_ℤ}
use go_bank.Common.Lists.{find_row, update_row}
use go_bank.Common.Lists.Rows.{Each}
use go_bank.Util.Float.{Float64, float_to_cents}
use go_bank.Util.Password.{hash_password}
use go_bank.Val.Validation.{
  validate_id, validate_email, validate_string, validate_username, validate_fullname,
  validate_password, is_valid_username, is_valid_fullname,
}
use go_bank.Token.Payload.{Payload}
use go_bank.Db.Models.{Account, Entry, Transfer, User, VerifyEmail}
use go_bank.Db.World.{World, ok, exchange}
use go_bank.Db.Query.Page.{account_is}
use go_bank.Db.Query.Accounts as Query
use go_bank.Db.Query.Accounts.{is_referenced}
use go_bank.Db.Query.Users
use go_bank.Db.Query.Users.{UpdateUserParams}
use go_bank.Db.Query.VerifyEmails.{update_verify_email}
use go_bank.Db.Tx.Exec.{exec_tx}
use go_bank.Db.Tx.VerifyEmail.{
  VerifyEmailTxParams, VerifyEmailTxResult, verify_email_body, verify_email_tx,
}
use go_bank.Db.Tx.VerifyEmail.Confirmed.{Confirmed, verify_email_tx-Confirmed}
use go_bank.Db.Tx.CreateUser.{create_user_body, create_user_tx}
use go_bank.Worker.Distribute.{distribute_task_send_verify_email}
use go_bank.Gapi.Guards.SignUp.{SignedUp, arguments, create_user-SignedUp}
use go_bank.Gapi.Accounts.{
  convert_account, authorize_account, validate_id_request, validate_update_account_request,
  update_account, delete_account,
}
use go_bank.Gapi.Accounts.Writes.{update_account-Owns, delete_account-Owns}
use go_bank.Gapi.Guards.Accounts.{Owns}
use go_bank.Gapi.Guards.Users.{Updated, update_user_effect}
use go_bank.Gapi.Users.{
  validate_create_user_request, create_user, convert_user, validate_update_user_request,
  update_params, update_user,
}
use go_bank.Tests.Data.{
  carol, bank, alice_account, bob_account, alice, bob, server, as_alice, renamed,
}

-- 3.00 as a float64.
abbrev three : Float64
three = 4613937818241073152

abbrev reduced : Account
reduced = record alice_account { balance = pos 300 }

abbrev after_update : World
after_update = record bank {
  tables = record (bank.tables) { accounts = reduced ∷ bob_account ∷ [] };
}

update_run :
    update_account server as_alice (pos 1) three bank ≡ (ok (convert_account reduced), after_update)
unfolding update_account validate_update_account_request validate_id authorize_account
    Query.get_account Query.update_account exchange float_to_cents
update_run = refl

update_account-Owns_example :
    (old : Account) × (new : Account) × Owns as_alice (pos 1) bank.tables old
    × (new ≡ record old { balance = float_to_cents server.out_of_range three })
    × (convert_account reduced ≡ convert_account new)
    × (after_update.tables ≡ record (bank.tables) {
      accounts = update_row (account_is (pos 1)) (λ _. new) bank.tables.accounts;
    })
update_account-Owns_example =
    update_account-Owns server as_alice (pos 1) three bank after_update update_run

abbrev without_alice : World
without_alice = record bank { tables = record (bank.tables) { accounts = bob_account ∷ [] } }

delete_run : delete_account as_alice (pos 1) bank ≡ (ok tt, without_alice)
unfolding delete_account validate_id_request validate_id authorize_account Query.get_account
    Query.delete_account exchange
delete_run = refl

delete_account-Owns_example :
    (old : Account) × Owns as_alice (pos 1) bank.tables old
    × Each (λ (e : Entry). e.account_id ≢ pos 1) bank.tables.entries
    × Each
        (λ (t : Transfer). (t.from_account_id ≢ pos 1) × (t.to_account_id ≢ pos 1))
        bank.tables.transfers
    × ((other : ℤ)
        → find_row (account_is other) without_alice.tables.accounts
          ≡ (if eq_ℤ other (pos 1) then none else find_row (account_is other) bank.tables.accounts))
delete_account-Owns_example = delete_account-Owns as_alice (pos 1) bank without_alice delete_run

abbrev alice_renamed : User
alice_renamed = record alice {
  hashed_password = "new password";
  full_name = "Alice A";
  password_changed_at = 1000;
}

abbrev after_rename : World
after_rename = record bank {
  tables = record (bank.tables) { users = alice_renamed ∷ bob ∷ [] };
  drawn = 1;
}

rename_run :
    update_user server as_alice renamed bank ≡ (ok (convert_user alice_renamed), after_rename)
unfolding update_user validate_update_user_request validate_username validate_fullname
    validate_password validate_string is_valid_username is_valid_fullname update_params
    hash_password Users.update_user exchange
rename_run = refl

update_user_effect_example :
    (p : Payload) × (old : User) × (new : User) × (as_alice.auth_payload ≡ some p)
    × (p.username ≡ renamed.username)
    × Updated server renamed bank.clock old new
    × (before : List User) × (after : List User) × (bank.tables.users ≡ before ++ old ∷ after)
    × (after_rename.tables ≡ record (bank.tables) { users = before ++ new ∷ after })
    × (convert_user alice_renamed ≡ convert_user new)
update_user_effect_example = update_user_effect server as_alice renamed bank after_rename rename_run

abbrev code : VerifyEmail
code = record {
  id = pos 1;
  username = "alice";
  email = "alice@mail.com";
  secret_code = "secret";
  is_used = false;
  created_at = 900;
  expires_at = 5000;
}

abbrev awaiting : World
awaiting = record bank { tables = record (bank.tables) { verify_emails = code ∷ [] } }

abbrev confirmed : World
confirmed = record bank {
  tables = record (bank.tables) {
    users = record alice { is_email_verified = true } ∷ bob ∷ [];
    verify_emails = record code { is_used = true } ∷ [];
  };
}

abbrev with_code : VerifyEmailTxParams
with_code = record { email_id = pos 1; secret_code = "secret" }

abbrev confirmation : VerifyEmailTxResult
confirmation = record {
  user = record alice { is_email_verified = true };
  verify_email = record code { is_used = true };
}

verify_run : verify_email_tx with_code awaiting ≡ (ok confirmation, confirmed)
unfolding verify_email_tx exec_tx verify_email_body update_verify_email Users.update_user exchange
verify_run = refl

verify_email_tx-Confirmed_example :
    Confirmed with_code awaiting.clock confirmation awaiting.tables confirmed.tables
verify_email_tx-Confirmed_example =
    verify_email_tx-Confirmed with_code awaiting confirmed verify_run

abbrev carol_row : User
carol_row = record {
  username = "carol";
  hashed_password = "password";
  full_name = "Carol C";
  email = "carol@mail.com";
  password_changed_at = 0;
  created_at = 1000;
  is_email_verified = false;
}

abbrev with_carol : World
with_carol = record bank {
  tables = record (bank.tables) { users = alice ∷ bob ∷ carol_row ∷ [] };
  queue = "carol" ∷ [];
  drawn = 1;
}

sign_up_run : create_user server carol bank ≡ (ok (convert_user carol_row), with_carol)
unfolding create_user validate_create_user_request validate_username validate_password
    validate_email validate_fullname validate_string is_valid_username is_valid_fullname
    hash_password create_user_tx create_user_body exec_tx Users.create_user
    distribute_task_send_verify_email exchange
sign_up_run = refl

create_user-SignedUp_example :
    (hash : String) × (new : User) × (server.bcrypt.generate_from_password
        (bank.draws bank.drawn)
        carol.password
      ≡ some hash)
    × SignedUp (arguments carol hash) bank.clock new bank with_carol
    × (convert_user carol_row ≡ convert_user new)
create_user-SignedUp_example = create_user-SignedUp server carol bank with_carol sign_up_run
