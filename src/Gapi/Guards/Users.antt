-- ===== src/Gapi/Guards/Users.antt =====
-- What UpdateUser and VerifyEmail have done when they succeed.
use go_bank.Common.{
  ◌≡◌, refl, ap, sym, ◌∙◌, ℕ, suc, not, Option, none, some, List, ◌∷◌, ◌++◌, String, str_eq, eq_iff,
}
use go_bank.Common.Lists.Rows.{find_row-holds, update_row-split}
use go_bank.Db.Query.Page.{user_is}
use mathlib.Core.Path.{subst, subst₂}
use go_bank.Util.Password.{hash_password}
use go_bank.Token.Payload.{Payload}
use go_bank.Db.Models.{User}
use go_bank.Db.World.{World, Tables, ok, pure, >>=-eq-ok, pure-eq-ok, ◌>>=◌, now}
use go_bank.Db.Query.Users as Query
use go_bank.Db.Query.Users.{
  UpdateUserParams, updated_user, email_taken, write_user, update_user_row, coalesce,
}
use go_bank.Db.Query.Users.Update.{Rewritten, update_user-Rewritten}
use go_bank.Gapi.Server.{Server, Context}
use go_bank.Gapi.Users.{
  PbUser, UpdateUserRequest, convert_user, validate_update_user_request, update_args, update_params,
  hashed_or_fail, update_user_error, update_user,
}
use go_bank.Gapi.Guards.{after_reject, after_caller, after_refuse_if, after_or_else, same_text}

-- The hash and the time of a password that was sent, and nothing for one that was not.
data NewPassword (server : Server) (time : ℕ)
    : Option String → Option String → Option ℕ → Type 0 where
  unsent : NewPassword server time none none none
  stamped :
      (salt : ℕ) (password hash : String)
      → server.bcrypt.generate_from_password salt password ≡ some hash
      → NewPassword server time (some password) (some hash) (some time)

-- The arguments that UpdateUser makes of a request.
record Arguments (server : Server) (req : UpdateUserRequest) (time : ℕ) (arg : UpdateUserParams)
    : Type 0 where
  pub hash : Option String
  pub at : Option ℕ
  pub password : NewPassword server time req.password hash at
  pub args : arg ≡ update_args req hash at

stamped_by :
    (server : Server) (req : UpdateUserRequest) (salt : ℕ) (password : String) (o : Option String)
    (w w' : World) {arg : UpdateUserParams}
    → server.bcrypt.generate_from_password salt password ≡ o
    → (hashed_or_fail o >>= λ hash. now >>= λ time. pure (update_args req (some hash) (some time)))
        w
      ≡ (ok arg, w')
    → (hash : String) × NewPassword server w.clock (some password) (some hash) (some w.clock)
      × (arg ≡ update_args req (some hash) (some w.clock))
      × (w' ≡ w)
stamped_by server req salt password none w w' e h = cc
stamped_by server req salt password (some hash) w w' e h =
    let (same, left) = pure-eq-ok (update_args req (some hash) (some w.clock)) _ w w' h in
    (hash, stamped salt password hash e, sym same, sym left)

update_params-Arguments :
    (server : Server) (req : UpdateUserRequest) (sent : Option String) (w w' : World)
    {arg : UpdateUserParams}
    → req.password ≡ sent
    → update_params server req sent w ≡ (ok arg, w')
    → Arguments server req w.clock arg × (w'.tables ≡ w.tables)
unfolding update_params hash_password
update_params-Arguments server req none w w' e h =
    let (same, left) = pure-eq-ok (update_args req none none) _ w w' h in
    (
      record {
        hash = none;
        at = none;
        password = subst (λ o. NewPassword server w.clock o none none) (sym e) unsent;
        args = sym same;
      },
      ap (λ u. u.tables) (sym left),
    )
update_params-Arguments server req (some password) w w' e h =
    let salt = w.draws w.drawn in
    let (hash, new, args, left) =
      stamped_by server req salt password (server.bcrypt.generate_from_password salt password)
        (record w { drawn = suc w.drawn }) w' refl h in
    (
      record {
        hash = some hash;
        at = some w.clock;
        password = subst (λ o. NewPassword server w.clock o (some hash) (some w.clock)) (sym e) new;
        args = args;
      },
      ap (λ u. u.tables) left,
    )

-- A field of the row: as it was sent, or as it was.
pub data Field : Option String → (old new : String) → Type 0 where
  kept : (old : String) → Field none old old
  sent : (new old : String) → Field (some new) old new

-- The password of the row: as it was, or a hash of the one that was sent, changed at the time of the call.
pub data Password (server : Server) (time : ℕ) (old new : User) : Option String → Type 0 where
  kept :
      new.hashed_password ≡ old.hashed_password
      → new.password_changed_at ≡ old.password_changed_at
      → Password server time old new none
  changed :
      (salt : ℕ) (password : String)
      → server.bcrypt.generate_from_password salt password ≡ some new.hashed_password
      → new.password_changed_at ≡ time
      → Password server time old new (some password)

-- The row of a user before and after a call of UpdateUser.
pub record Updated (server : Server) (req : UpdateUserRequest) (time : ℕ) (old new : User)
    : Type 0 where
  pub username : old.username ≡ req.username
  pub same_username : new.username ≡ old.username
  pub full_name : Field req.full_name old.full_name new.full_name
  pub email : Field req.email old.email new.email
  pub password : Password server time old new req.password
  pub same_creation : new.created_at ≡ old.created_at
  pub same_flag : new.is_email_verified ≡ old.is_email_verified

as_sent : (o : Option String) (old : String) → Field o old (coalesce o old)
as_sent none old = kept old
as_sent (some new) old = sent new old

as_stamped :
    (server : Server) (time : ℕ) (old new : User) (password hash : Option String) (at : Option ℕ)
    → NewPassword server time password hash at
    → new.hashed_password ≡ coalesce hash old.hashed_password
    → new.password_changed_at ≡ coalesce at old.password_changed_at
    → Password server time old new password
as_stamped server time old new _ _ _ unsent h k = kept h k
as_stamped server time old new _ _ _ (stamped salt password hash e) h k =
    changed salt password (e ∙ ap some (sym h)) k

Rewritten-Updated :
    (server : Server) (req : UpdateUserRequest) (time : ℕ) (arg : UpdateUserParams) (new : User)
    (t t' : Tables)
    → Arguments server req time arg
    → Rewritten arg new t t'
    → (old : User) × Updated server req time old new
      × (before : List User) × (after : List User) × (t.users ≡ before ++ old ∷ after)
      × (t' ≡ record t { users = before ++ new ∷ after })
Rewritten-Updated server req time arg new t t' a w =
    let (before, after, stored, written) =
      update_row-split (user_is arg.username) (λ _. new) t.users w.old w.found in
    let made : new ≡ updated_user (update_args req a.hash a.at) w.old =
      w.made ∙ ap (λ x. updated_user x w.old) a.args in
    (
      w.old,
      record {
        username =
            (eq_iff w.old.username arg.username).0
              (find_row-holds (user_is arg.username) t.users w.old w.found)
            ∙ ap (λ x. x.username) a.args;
        same_username = ap (λ u. u.username) made;
        full_name =
            subst (Field req.full_name w.old.full_name) (sym (ap (λ u. u.full_name) made))
              (as_sent req.full_name w.old.full_name);
        email =
            subst (Field req.email w.old.email) (sym (ap (λ u. u.email) made))
              (as_sent req.email w.old.email);
        password =
            as_stamped server time w.old new req.password a.hash a.at a.password
              (ap (λ u. u.hashed_password) made) (ap (λ u. u.password_changed_at) made);
        same_creation = ap (λ u. u.created_at) made;
        same_flag = ap (λ u. u.is_email_verified) made;
      },
      before,
      after,
      stored,
      w.after ∙ ap {A = List User} (λ us. record t { users = us }) written,
    )

-- UpdateUser succeeds only for the user that it changes. It then writes that row, where it stands: the
-- full name and the email as they were sent, a new password as its hash with the time of the change,
-- and whatever was not sent as it was. The username, the time of the creation and the flag of the
-- verified email stay as they were, the flag also with a new email; no other row and no other table
-- changes, and the answer shows the new row.
pub update_user_effect :
    (server : Server) (ctx : Context) (req : UpdateUserRequest) (w w' : World) {rsp : PbUser}
    → update_user server ctx req w ≡ (ok rsp, w')
    → (p : Payload) × (old : User) × (new : User) × (ctx.auth_payload ≡ some p)
      × (p.username ≡ req.username)
      × Updated server req w.clock old new
      × (before : List User) × (after : List User) × (w.tables.users ≡ before ++ old ∷ after)
      × (w'.tables ≡ record (w.tables) { users = before ++ new ∷ after })
      × (rsp ≡ convert_user new)
unfolding update_user
update_user_effect server ctx req w w' {rsp} h =
    let (_, h1) = after_reject (validate_update_user_request server req) _ w w' h in
    let (p, who, h2) = after_caller ctx _ w w' h1 in
    let (mine, h3) = after_refuse_if (not (str_eq p.username req.username)) _ _ w w' h2 in
    let (arg, v, made, h4) = >>=-eq-ok (update_params server req req.password) _ w w' h3 in
    let (args, same) = update_params-Arguments server req req.password w v refl made in
    let (new, u, wrote, done) = after_or_else (Query.update_user arg) update_user_error _ v w' h4 in
    let (answer, left) = pure-eq-ok _ rsp u w' done in
    let (old, updated, before, after, stored, written) =
      Rewritten-Updated server req w.clock arg new w.tables w'.tables args (
        subst₂ (λ t t'. Rewritten arg new t t') same (ap (λ x. x.tables) left)
          (update_user-Rewritten arg v u wrote)) in
    (
      p,
      old,
      new,
      who,
      same_text p.username req.username mine,
      updated,
      before,
      after,
      stored,
      written,
      sym answer,
    )
