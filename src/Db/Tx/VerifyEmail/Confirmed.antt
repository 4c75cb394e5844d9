-- ===== src/Db/Tx/VerifyEmail/Confirmed.antt =====
-- Which codes VerifyEmailTx takes, and what it does to the rows of the code and its user.
use go_bank.Common.{
  ◌≡◌, ap, sym, ◌∙◌, ℕ, ◌<◌, true, false, some, List, ◌∷◌, ◌++◌, String, eq_iff, arith,
}
use go_bank.Common.Int.{eq_ℤ-iff}
use go_bank.Common.Lists.{find_row, update_row}
use go_bank.Common.Lists.Rows.{find_row-holds, update_row-split}
use go_bank.Db.Models.{User, VerifyEmail}
use go_bank.Db.World.{World, Tables, ok}
use go_bank.Db.Query.Page.{user_is}
use go_bank.Db.Query.VerifyEmails.{UpdateVerifyEmailParams, can_verify, mark_used}
use go_bank.Db.Tx.VerifyEmail.{VerifyEmailTxParams, VerifyEmailTxResult, verify_email_tx}
use go_bank.Db.Tx.VerifyEmail.Single.{code_of, Verified, verify_email_tx-Verified}

-- The code that was taken, and the row of its user.
pub record Confirmed (arg : VerifyEmailTxParams) (time : ℕ) (r : VerifyEmailTxResult)
    (t t' : Tables) : Type 0 where
  pub code : VerifyEmail
  pub same_id : code.id ≡ arg.email_id
  pub same_secret : code.secret_code ≡ arg.secret_code
  pub unused : code.is_used ≡ false
  pub in_time : time < code.expires_at
  pub codes_before : List VerifyEmail
  pub codes_after : List VerifyEmail
  pub stored : t.verify_emails ≡ codes_before ++ code ∷ codes_after
  pub used : r.verify_email ≡ record code { is_used = true }
  pub user : User
  pub named : user.username ≡ code.username
  pub users_before : List User
  pub users_after : List User
  pub known : t.users ≡ users_before ++ user ∷ users_after
  pub flagged : r.user ≡ record user { is_email_verified = true }
  pub left : t' ≡ record t {
    verify_emails = codes_before ++ r.verify_email ∷ codes_after;
    users = users_before ++ r.user ∷ users_after;
  }

-- What the condition of the statement says of a row.
taken_code :
    (arg : UpdateVerifyEmailParams) (time : ℕ) (v : VerifyEmail)
    → can_verify arg time v ≡ true
    → (v.id ≡ arg.id)
      × (v.secret_code ≡ arg.secret_code)
      × (v.is_used ≡ false)
      × (time < v.expires_at)
taken_code arg time v h = (
  (eq_ℤ-iff v.id arg.id).0 (ground arith),
  (eq_iff v.secret_code arg.secret_code).0 (ground arith),
  ground arith,
  ground arith,
)

user_named : (name : String) (u : User) → user_is name u ≡ true → u.username ≡ name
user_named name u h = (eq_iff u.username name).0 h

Verified-Confirmed :
    (arg : VerifyEmailTxParams) (time : ℕ) (r : VerifyEmailTxResult) (t t' : Tables)
    → Verified arg time r t t'
    → Confirmed arg time r t t'
Verified-Confirmed arg time r t t' v =
    let row = v.code.row in
    let (id, secret, unused, soon) =
      taken_code (code_of arg) time row
        (find_row-holds (can_verify (code_of arg) time) t.verify_emails row v.code.found) in
    let (before, after, stored, marked) =
      update_row-split (can_verify (code_of arg) time) mark_used t.verify_emails row v.code.found in
    let users : v.between.users ≡ t.users = ap (λ x. x.users) v.code.after in
    let name : r.verify_email.username ≡ row.username = ap (λ x. x.username) v.code.made in
    let found : find_row (user_is r.verify_email.username) t.users ≡ some v.user.old =
      ap (find_row (user_is r.verify_email.username)) (sym users) ∙ v.user.found in
    let (above, below, known, written) =
      update_row-split (user_is r.verify_email.username) (λ _. r.user) t.users v.user.old found in
    record {
      code = row;
      same_id = id;
      same_secret = secret;
      unused = unused;
      in_time = soon;
      codes_before = before;
      codes_after = after;
      stored = stored;
      used = v.code.made;
      user = v.user.old;
      named = user_named _ v.user.old (find_row-holds (user_is _) t.users v.user.old found) ∙ name;
      users_before = above;
      users_after = below;
      known = known;
      flagged = v.user.made;
      left =
          v.user.after
          ∙ ap {A = Tables}
              (λ x. record x {
                users = update_row (user_is r.verify_email.username) (λ _. r.user) x.users;
              })
              v.code.after
          ∙ ap {A = List User}
              (λ us. record t {
                verify_emails =
                    update_row (can_verify (code_of arg) time) mark_used t.verify_emails;
                users = us;
              })
              written
          ∙ ap {A = List VerifyEmail}
              (λ vs. record t { verify_emails = vs; users = above ++ r.user ∷ below })
              (marked ∙ ap (λ x. before ++ x ∷ after) (sym v.code.made));
    }

-- VerifyEmailTx succeeds only with a stored code that has the given id and the given secret, has not been used,
-- and expires after the time at which the transaction begins. That row of the codes is then marked as
-- used, where it stands; the row of the user that the code names has its flag set, where it stands;
-- the answer shows the two rows; and nothing else has changed in any table.
pub verify_email_tx-Confirmed :
    (arg : VerifyEmailTxParams) (w w' : World) {r : VerifyEmailTxResult}
    → verify_email_tx arg w ≡ (ok r, w')
    → Confirmed arg w.clock r w.tables w'.tables
verify_email_tx-Confirmed arg w w' {r} h =
    Verified-Confirmed arg w.clock r w.tables w'.tables (verify_email_tx-Verified arg w w' h)
