-- ===== src/Worker/Process/Effect.antt =====
-- What the processor has done when a task succeeds.
use go_bank.Common.{
  ◌≡◌, ap, sym, ◌∙◌, ℕ, zero, suc, ◌+◌, Bool, true, false, some, List, [], ◌∷◌, ◌++◌, String,
  if◌then◌else◌,
}
use go_bank.Common.Int.{pos}
use go_bank.Common.Lists.{find_row, has_row}
use go_bank.Db.Models.{User, VerifyEmail}
use go_bank.Db.World.{
  World, Result, ok, err, exchange_ok, with_verify_emails, >>=-eq-ok, pure-eq-ok,
}
use go_bank.Db.Guards.{or_else_passed, after_or_else}
use go_bank.Db.Query.Page.{user_is}
use go_bank.Db.Query.Users.{get_user}
use go_bank.Db.Query.Reads.{one_row-eq-ok}
use go_bank.Db.Query.VerifyEmails.{CreateVerifyEmailParams, create_verify_email, lifetime}
use go_bank.Mail.{Message}
use go_bank.Mail.Sender.{send_email}
use go_bank.Mail.Sender.Delivery.{message, send_email_ok}
use go_bank.Worker.Process.{
  TaskProcessor, get_user_error, any_failed, random_string, subject, content, verify_url,
  process_task_send_verify_email,
}

get_user_ok :
    (username : String) (w w' : World) {u : User}
    → get_user username w ≡ (ok u, w')
    → (find_row (user_is username) w.tables.users ≡ some u)
      × (later : List Bool) × (w' ≡ record w { faults = later })
unfolding get_user
get_user_ok username w w' h =
    let (later, done) = exchange_ok _ w w' h in
    (one_row-eq-ok _ (ap (λ r. r.0) done), later, ap (λ r. r.1) (sym done))

random_string_ok :
    {E : Type 0} (n : ℕ) (w w' : World) {s : String}
    → random_string {E = E} n w ≡ (ok s, w')
    → (d : ℕ) × (w' ≡ record w { drawn = d })
unfolding random_string
random_string_ok zero w w' h = (w.drawn, sym (pure-eq-ok "" _ w w' h).1)
random_string_ok (suc n) w w' h =
    let v : World = record w { drawn = suc w.drawn } in
    let (rest, u, ran, done) = >>=-eq-ok (random_string n) _ v w' h in
    let (d, kept) = random_string_ok n v u ran in (d, sym (pure-eq-ok _ _ u w' done).1 ∙ kept)

-- The row of a new code.
abbrev pub new_code : CreateVerifyEmailParams → World → VerifyEmail
new_code arg w = record {
  id = pos (w.verify_email_seq + 1);
  username = arg.username;
  email = arg.email;
  secret_code = arg.secret_code;
  is_used = false;
  created_at = w.clock;
  expires_at = w.clock + lifetime;
}

if_ok :
    {E A : Type 0} (b : Bool) (x : A) (e : E) (u v : World) (a : A) (w' : World)
    → ◌≡◌ {A = Result E A × World} (if b then (ok x, u) else (err e, v)) (ok a, w')
    → (x ≡ a) × (u ≡ w')
if_ok true x e u v a w' h = pure-eq-ok x a u w' h
if_ok false x e u v a w' h = cc

create_verify_email_ok :
    (arg : CreateVerifyEmailParams) (w w' : World) {row : VerifyEmail}
    → create_verify_email arg w ≡ (ok row, w')
    → (row ≡ new_code arg w)
      × (later : List Bool) × (w'
          ≡ with_verify_emails
              (record w { faults = later; verify_email_seq = w.verify_email_seq + 1 })
              (w.tables.verify_emails ++ new_code arg w ∷ []))
unfolding create_verify_email
create_verify_email_ok arg w w' h =
    let (later, done) = exchange_ok _ w w' h in
    let (same, left) = if_ok (has_row (user_is arg.username) w.tables.users) _ _ _ _ _ w' done in
    (sym same, later, sym left)

-- The task's user was found; a new code is stored for that user's address, which expires after its
-- lifetime, and nothing else has changed in the tables; and one message has been sent, to that
-- address, with the link that carries the id of the code and the code.
pub record Welcomed (processor : TaskProcessor) (username : String) (w w' : World) : Type 0 where
  pub user : User
  pub found : find_row (user_is username) w.tables.users ≡ some user
  pub secret_code : String
  pub stored : w'.tables ≡ record (w.tables) {
    verify_emails =
        w.tables.verify_emails
        ++ new_code
            (record { username = user.username; email = user.email; secret_code = secret_code })
            w
          ∷ [];
  }
  pub sent :
      w'.outbox
      ≡ w.outbox
        ++ message processor.go_mail processor.mailer subject
            (content user.full_name
              (verify_url processor.base_url (pos (w.verify_email_seq + 1)) secret_code))
            (user.email ∷ [])
            []
            []
            []
          ∷ []

-- The parts of a task, put together.
assemble :
    (processor : TaskProcessor) (username : String) (user : User) (code : String)
    (row : VerifyEmail) (w v1 v2 v3 w' : World)
    → find_row (user_is username) w.tables.users ≡ some user
    → (f1 : List Bool) (d : ℕ) (f3 f4 : List Bool) → v1 ≡ record w { faults = f1 }
    → v2 ≡ record v1 { drawn = d }
    → row
      ≡ new_code (record { username = user.username; email = user.email; secret_code = code }) v2
    → v3
      ≡ with_verify_emails
          (record v2 { faults = f3; verify_email_seq = v2.verify_email_seq + 1 })
          (v2.tables.verify_emails
            ++ new_code
                (record { username = user.username; email = user.email; secret_code = code })
                v2
              ∷ [])
    → w' ≡ record v3 {
      faults = f4;
      outbox =
          v3.outbox
          ++ message processor.go_mail processor.mailer subject
              (content user.full_name (verify_url processor.base_url row.id row.secret_code))
              (user.email ∷ [])
              []
              []
              []
            ∷ [];
    }
    → Welcomed processor username w w'
assemble processor username user code row w v1 v2 v3 w' found f1 d f3 f4 e1 e2 same e3 e4 =
    let arg : CreateVerifyEmailParams = record {
      username = user.username;
      email = user.email;
      secret_code = code;
    } in
    let before : v2 ≡ record w { faults = f1; drawn = d } =
      e2 ∙ ap {A = World} (λ u. record u { drawn = d }) e1 in
    let mail : VerifyEmail → Message = λ r.
      message processor.go_mail processor.mailer subject
        (content user.full_name (verify_url processor.base_url r.id r.secret_code))
        (user.email ∷ []) [] [] [] in
    record {
      user = user;
      found = found;
      secret_code = code;
      stored =
          ap (λ u. u.tables) e4
          ∙ ap (λ u. u.tables) e3
          ∙ ap {A = World}
              (λ u. record (u.tables) {
                verify_emails = u.tables.verify_emails ++ new_code arg u ∷ [];
              })
              before;
      sent =
          ap (λ u. u.outbox) e4
          ∙ ap (λ u. u.outbox ++ mail row ∷ []) e3
          ∙ ap (λ r. v2.outbox ++ mail r ∷ []) same
          ∙ ap {A = World} (λ u. u.outbox ++ mail (new_code arg u) ∷ []) before;
    }

-- A task that the processor ends without an error has stored one code and sent one message, as Welcomed says.
pub process_task-Welcomed :
    (processor : TaskProcessor) (username : String) (w w' : World)
    → process_task_send_verify_email processor (some username) w ≡ (ok tt, w')
    → Welcomed processor username w w'
unfolding process_task_send_verify_email
process_task-Welcomed processor username w w' h =
    let (user, v1, got, h1) = after_or_else (get_user username) get_user_error _ w w' h in
    let (found, f1, e1) = get_user_ok username w v1 got in
    let (code, v2, drew, h2) = >>=-eq-ok (random_string 32) _ v1 w' h1 in
    let (d, e2) = random_string_ok 32 v1 v2 drew in
    let (row, v3, made, h3) = after_or_else (create_verify_email _) any_failed _ v2 w' h2 in
    let (same, f3, e3) = create_verify_email_ok _ v2 v3 made in
    let (_, f4, e4) =
      send_email_ok processor.go_mail processor.mailer subject _ (user.email ∷ []) [] [] [] v3 w' (
        or_else_passed (send_email processor.go_mail processor.mailer subject _ _ _ _ _) any_failed
          v3 w' h3) in
    assemble processor username user code row w v1 v2 v3 w' found f1 d f3 f4 e1 e2 same e3 e4
