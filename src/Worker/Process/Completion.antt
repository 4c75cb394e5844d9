-- ===== src/Worker/Process/Completion.antt =====
-- From the task to the verified address.
use go_bank.Common.{
  ◌≡◌, refl, ap, sym, ◌∙◌, ◌+◌, ◌<◌, ◌&&◌, Bool, true, false, not, none, some, List, [], ◌∷◌, ◌++◌,
  String, str_eq, eq_iff, some_eq, ltb, arith, Bool-cases, inl, inr,
}
use go_bank.Common.Int.{ℤ, pos, eq_ℤ, eq_ℤ-iff}
use go_bank.Common.Lists.{find_row, has_row}
use go_bank.Common.Lists.Rows.{find_row-holds}
use go_bank.Db.Models.{User, VerifyEmail}
use go_bank.Db.World.{World, Tables, ok}
use go_bank.Db.Query.Page.{user_is}
use go_bank.Db.Query.Users.{email_taken}
use go_bank.Db.Query.VerifyEmails.{UpdateVerifyEmailParams, can_verify, lifetime}
use go_bank.Db.Tx.VerifyEmail.{VerifyEmailTxParams, VerifyEmailTxResult, verify_email_tx}
use go_bank.Db.Tx.VerifyEmail.Single.{code_of, Verified, verify_email_tx-Verified}
use go_bank.Db.Tx.VerifyEmail.Success.{verify_email_tx-Runs}
use mathlib.Core.Path.{subst}
use go_bank.Mail.Sender.Delivery.{message}
use go_bank.Worker.Process.{
  TaskProcessor, subject, content, verify_url, process_task_send_verify_email,
}
use go_bank.Worker.Process.Link.{Shows, content-Shows}
use go_bank.Worker.Process.Effect.{Welcomed, new_code, process_task-Welcomed}

-- No stored code has the id.
abbrev pub id_is : ℤ → VerifyEmail → Bool
id_is id v = eq_ℤ v.id id

-- The last row is found if no other row has its id.
find_last :
    (arg : UpdateVerifyEmailParams) (now : _) (rows : List VerifyEmail) (new : VerifyEmail)
    → find_row (id_is arg.id) rows ≡ none
    → can_verify arg now new ≡ true
    → find_row (can_verify arg now) (rows ++ new ∷ []) ≡ some new
find_last arg now [] new fresh h = rw h refl
find_last arg now (v ∷ rows) new fresh h = elim (Bool-cases (eq_ℤ v.id arg.id)) [
  | inl hit ↦ let no : some v ≡ none = rw hit at fresh in cc
  | inr miss ↦ rw miss (find_last arg now rows new (rw miss at fresh) h)
]

fresh_code :
    (id : ℤ) (secret : String) (now expiry : _)
    → now < expiry
    → (eq_ℤ id id && str_eq secret secret && not false && ltb now expiry) ≡ true
fresh_code id secret now expiry h =
    rw ((eq_ℤ-iff id id).1 refl, (eq_iff secret secret).1 refl) (ground arith)

flagged :
    (arg : VerifyEmailTxParams) (new : VerifyEmail) (user : User) (v : World)
    (r : VerifyEmailTxResult) (t' : Tables)
    → find_row (can_verify (code_of arg) v.clock) v.tables.verify_emails ≡ some new
    → find_row (user_is new.username) v.tables.users ≡ some user
    → Verified arg v.clock r v.tables t'
    → r.user ≡ record user { is_email_verified = true }
flagged arg new user v r t' found known ver =
    let row : ver.code.row ≡ new = some_eq (sym ver.code.found ∙ found) in
    let name : r.verify_email.username ≡ new.username =
      ap (λ x. x.username) ver.code.made ∙ ap (λ x. x.username) row in
    let users : ver.between.users ≡ v.tables.users = ap (λ t. t.users) ver.code.after in
    let old : ver.user.old ≡ user = some_eq (
      sym ver.user.found
      ∙ ap (λ t. find_row (user_is r.verify_email.username) t) users
      ∙ ap (λ n. find_row (user_is n) v.tables.users) name
      ∙ known) in
    ver.user.made ∙ ap {A = User} (λ u. record u { is_email_verified = true }) old

verify_stored :
    (arg : VerifyEmailTxParams) (rows : List VerifyEmail) (new : VerifyEmail) (user : User)
    (v : World)
    → find_row (id_is arg.email_id) rows ≡ none
    → can_verify (code_of arg) v.clock new ≡ true
    → v.tables.verify_emails ≡ rows ++ new ∷ []
    → find_row (user_is new.username) v.tables.users ≡ some user
    → has_row (email_taken user) v.tables.users ≡ false
    → v.faults ≡ []
    → (r : VerifyEmailTxResult) × (v' : World) × (verify_email_tx arg v ≡ (ok r, v'))
      × (r.user ≡ record user { is_email_verified = true })
verify_stored arg rows new user v fresh usable stored known free quiet =
    let found =
      ap (find_row (can_verify (code_of arg) v.clock)) stored
      ∙ find_last (code_of arg) v.clock rows new fresh usable in
    let run = verify_email_tx-Runs arg new user v quiet found known free in
    (
      run.value,
      run.final,
      run.ran,
      flagged arg new user v run.value run.final.tables found known
          (verify_email_tx-Verified arg v run.final run.ran),
    )

-- One mail was sent, to the address, and its text shows the link of the code.
abbrev pub Mailed : TaskProcessor → (id : ℤ) → (code email : String) → (w w' : World) → Type 0
Mailed processor id code email w w' =
    (text : String) × (w'.outbox
      ≡ w.outbox
        ++ message processor.go_mail processor.mailer subject text (email ∷ []) [] [] [] ∷ [])
    × Shows processor.base_url id code text

-- After a task that ended without an error, one mail has been sent, to the address of the task's user, whose text shows the link with
-- the id and the code; and that code verifies the address: in any later world with the same tables, before 15 minutes have passed, VerifyEmailTx with the id and the code of the link
-- succeeds when no statement meets a fault, and sets the flag of the task's user. No stored code had
-- the id that the sequence gave, and no other user has the address.
pub process_task-verify_email_tx :
    (processor : TaskProcessor) (username : String) (w w' v : World) (user : User)
    → process_task_send_verify_email processor (some username) w ≡ (ok tt, w')
    → find_row (id_is (pos (w.verify_email_seq + 1))) w.tables.verify_emails ≡ none
    → find_row (user_is username) w.tables.users ≡ some user
    → has_row (email_taken user) w.tables.users ≡ false
    → v.tables ≡ w'.tables
    → v.clock < w.clock + lifetime
    → v.faults ≡ []
    → (done : Welcomed processor username w w') × Mailed processor
        (pos (w.verify_email_seq + 1))
        done.secret_code
        user.email
        w
        w'
      × ((r : VerifyEmailTxResult) × (v' : World) × (verify_email_tx
              (record { email_id = pos (w.verify_email_seq + 1); secret_code = done.secret_code })
              v
            ≡ (ok r, v'))
          × (r.user ≡ record user { is_email_verified = true }))
process_task-verify_email_tx processor username w w' v user h fresh found free same soon quiet =
    let done = process_task-Welcomed processor username w w' h in
    let id = pos (w.verify_email_seq + 1) in
    let who : done.user ≡ user = some_eq (sym done.found ∙ found) in
    let name : done.user.username ≡ username =
      (eq_iff _ _).0 (find_row-holds (user_is username) w.tables.users done.user done.found) in
    let users : v.tables.users ≡ w.tables.users =
      ap (λ t. t.users) same ∙ ap (λ t. t.users) done.stored in
    (
      done,
      (
        _,
        subst
            (λ (u : User).
              w'.outbox
              ≡ w.outbox
                ++ message processor.go_mail processor.mailer subject
                    (content done.user.full_name
                      (verify_url processor.base_url id done.secret_code))
                    (u.email ∷ []) [] [] []
                  ∷ [])
            who done.sent,
        content-Shows done.user.full_name processor.base_url id done.secret_code,
      ),
      verify_stored (record { email_id = id; secret_code = done.secret_code })
          w.tables.verify_emails
          (new_code
            (record {
              username = done.user.username;
              email = done.user.email;
              secret_code = done.secret_code;
            })
            w)
          user v fresh (fresh_code id done.secret_code v.clock (w.clock + lifetime) soon)
          (ap (λ t. t.verify_emails) same ∙ ap (λ t. t.verify_emails) done.stored)
          (ap (find_row (user_is done.user.username)) users
            ∙ ap (λ n. find_row (user_is n) w.tables.users) name
            ∙ found)
          (ap (has_row (email_taken user)) users ∙ free) quiet,
    )
