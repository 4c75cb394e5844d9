-- ===== src/Gapi/Guards/SignUp.antt =====
-- What CreateUser has done when it succeeds.
use go_bank.Common.{
  ◌≡◌, ◌≢◌, eq_iff, refl, ap, sym, ◌∙◌, ℕ, suc, false, Option, none, some, [], ◌∷◌, ◌++◌, String,
  arith,
}
use mathlib.Core.Path.{subst}
use go_bank.Common.Lists.{has_row}
use go_bank.Common.Lists.Rows.{Each, has_row-Each}
use go_bank.Util.Password.{hash_password}
use go_bank.Db.Models.{User}
use go_bank.Db.World.{World, Tables, ok, >>=-eq-ok, pure-eq-ok, exchange_ok, ◌>>=◌}
use go_bank.Db.Query.Users as Query
use go_bank.Db.Query.Users.{CreateUserParams, clashes, new_user}
use go_bank.Db.Tx.Exec.{exec_tx_queue}
use go_bank.Db.Tx.CreateUser.{create_user_body, create_user_tx}
use go_bank.Worker.Distribute.{distribute_task_send_verify_email}
use go_bank.Gapi.Status.{Rpc}
use go_bank.Gapi.Server.{Server}
use go_bank.Gapi.Users.{
  PbUser, CreateUserRequest, convert_user, validate_create_user_request, hashed_or_fail,
  create_user_error, create_user,
}
use go_bank.Gapi.Guards.{after_reject, after_or_else}

-- A new user is stored and the task that mails the code is queued.
pub record SignedUp (arg : CreateUserParams) (time : ℕ) (new : User) (w w' : World) : Type 0 where
  pub made : new ≡ record {
    username = arg.username;
    hashed_password = arg.hashed_password;
    full_name = arg.full_name;
    email = arg.email;
    password_changed_at = 0;
    created_at = time;
    is_email_verified = false;
  }
  pub free : Each (λ (u : User). (u.username ≢ arg.username) × (u.email ≢ arg.email)) w.tables.users
  pub after : w'.tables ≡ record (w.tables) { users = w.tables.users ++ new ∷ [] }
  pub queued : w'.queue ≡ w.queue ++ arg.username ∷ []

apart :
    (arg : CreateUserParams) (u : User)
    → clashes arg u ≡ false
    → (u.username ≢ arg.username) × (u.email ≢ arg.email)
apart arg u h = (
  λ e. ground (arith, (eq_iff u.username arg.username).1 e),
  λ e. ground (arith, (eq_iff u.email arg.email).1 e),
)

create_row_ok :
    (arg : CreateUserParams) (w w' : World) {new : User}
    → Query.create_user arg w ≡ (ok new, w')
    → (new ≡ new_user arg w.clock)
      × (has_row (clashes arg) w.tables.users ≡ false)
      × (w'.tables ≡ record (w.tables) { users = w.tables.users ++ new ∷ [] })
      × (w'.queue ≡ w.queue)
unfolding Query.create_user
create_row_ok arg w w' h = let (later, done) = exchange_ok _ w w' h in ground arith

distributed :
    (username : String) (w w' : World)
    → distribute_task_send_verify_email username w ≡ (ok tt, w')
    → (w'.tables ≡ w.tables) × (w'.queue ≡ w.queue ++ username ∷ [])
unfolding distribute_task_send_verify_email
distributed username w w' h = let (later, done) = exchange_ok _ w w' h in ground arith

abbrev pub arguments : CreateUserRequest → (hash : String) → CreateUserParams
arguments req hash = record {
  username = req.username;
  hashed_password = hash;
  full_name = req.full_name;
  email = req.email;
}

body-SignedUp :
    (arg : CreateUserParams) (w w' : World) {new : User}
    → create_user_body
        (record {
          user = arg;
          after_create = λ user. distribute_task_send_verify_email user.username;
        })
        w
      ≡ (ok new, w')
    → SignedUp arg w.clock new w w'
unfolding create_user_body
body-SignedUp arg w w' {new} h =
    let (u, v, stored, h1) = >>=-eq-ok (Query.create_user arg) _ w w' h in
    let (made, free, after, same) = create_row_ok arg w v stored in
    let (_, x, sent, done) = >>=-eq-ok (distribute_task_send_verify_email u.username) _ v w' h1 in
    let (kept, queued) = distributed u.username v x sent in
    let (answer, left) = pure-eq-ok u new x w' done in
    subst (λ n. SignedUp arg w.clock n w w') answer
      (record {
        made = made;
        free = has_row-Each (clashes arg) _ w.tables.users (apart arg) free;
        after = ap (λ y. y.tables) (sym left) ∙ kept ∙ after;
        queued =
            ap (λ y. y.queue) (sym left)
            ∙ queued
            ∙ ap (λ q. q ++ u.username ∷ []) same
            ∙ ap (λ n. w.queue ++ n.username ∷ []) made;
      })

tx-SignedUp :
    (arg : CreateUserParams) (w w' : World) {new : User}
    → create_user_tx
        (record {
          user = arg;
          after_create = λ user. distribute_task_send_verify_email user.username;
        })
        w
      ≡ (ok new, w')
    → SignedUp arg w.clock new w w'
unfolding create_user_tx
tx-SignedUp arg w w' {new} h =
    let (v, v', before, clock, queue, ran, after, left) =
      exec_tx_queue (create_user_body _) w w' h in
    let s = body-SignedUp arg v v' ran in
    record {
      made = s.made ∙ ap (new_user arg) clock;
      free =
          subst
            (λ (t : Tables).
              Each (λ (u : User). (u.username ≢ arg.username) × (u.email ≢ arg.email)) t.users)
            before s.free;
      after =
          after ∙ s.after ∙ ap {A = Tables} (λ t. record t { users = t.users ++ new ∷ [] }) before;
      queued = left ∙ s.queued ∙ ap (λ q. q ++ arg.username ∷ []) queue;
    }

hash_made :
    {B : Type 0} (o : Option String) (k : String → Rpc B) (w w' : World) {b : B}
    → (hashed_or_fail o >>= k) w ≡ (ok b, w')
    → (hash : String) × (o ≡ some hash) × (k hash w ≡ (ok b, w'))
hash_made none k w w' h = cc
hash_made (some hash) k w w' h = (hash, refl, h)

-- CreateUser succeeds only where no user has the name or the email; it then stores the user with a hash
-- of the password and an email that is not verified, puts the task that mails the code into the queue,
-- and changes no other row.
pub create_user-SignedUp :
    (server : Server) (req : CreateUserRequest) (w w' : World) {rsp : PbUser}
    → create_user server req w ≡ (ok rsp, w')
    → (hash : String) × (new : User) × (server.bcrypt.generate_from_password
          (w.draws w.drawn)
          req.password
        ≡ some hash)
      × SignedUp (arguments req hash) w.clock new w w'
      × (rsp ≡ convert_user new)
unfolding create_user hash_password
create_user-SignedUp server req w w' {rsp} h =
    let (_, h1) = after_reject (validate_create_user_request server req) _ w w' h in
    let salted = record w { drawn = suc w.drawn } in
    let (hash, made, h2) =
      hash_made (server.bcrypt.generate_from_password (w.draws w.drawn) req.password) _ salted w'
        h1 in
    let (new, v, stored, done) =
      after_or_else (create_user_tx _) create_user_error _ salted w' h2 in
    let s = tx-SignedUp (arguments req hash) salted v stored in
    let (answer, left) = pure-eq-ok (convert_user new) rsp v w' done in
    (
      hash,
      new,
      made,
      record {
        made = s.made;
        free = s.free;
        after = ap (λ x. x.tables) (sym left) ∙ s.after;
        queued = ap (λ x. x.queue) (sym left) ∙ s.queued;
      },
      sym answer,
    )
