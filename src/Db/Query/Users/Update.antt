-- ===== src/Db/Query/Users/Update.antt =====
-- What UpdateUser has done when it succeeds.
use go_bank.Common.{◌≡◌, refl, ap, sym, ◌∙◌, Bool, true, false, Option, none, some}
use go_bank.Common.Lists.{find_row, has_row, update_row}
use go_bank.Db.Models.{User}
use go_bank.Db.World.{World, Tables, ok, pure-eq-ok, exchange_ok, with_users}
use go_bank.Db.Query.Page.{user_is}
use go_bank.Db.Query.Users.{
  UpdateUserParams, updated_user, email_taken, write_user, update_user_row, update_user,
}

-- A row was found and written, and no other user has its email.
pub record Rewritten (arg : UpdateUserParams) (new : User) (t t' : Tables) : Type 0 where
  pub old : User
  pub found : find_row (user_is arg.username) t.users ≡ some old
  pub made : new ≡ updated_user arg old
  pub free : has_row (email_taken new) t.users ≡ false
  pub after : t' ≡ record t { users = update_row (user_is arg.username) (λ _. new) t.users }

write_user-Rewritten :
    (arg : UpdateUserParams) (old : User) (taken : Bool) (w w' : World) {new : User}
    → find_row (user_is arg.username) w.tables.users ≡ some old
    → has_row (email_taken (updated_user arg old)) w.tables.users ≡ taken
    → write_user taken arg old w ≡ (ok new, w')
    → Rewritten arg new w.tables w'.tables
write_user-Rewritten arg old true w w' e t h = cc
write_user-Rewritten arg old false w w' {new} e t h =
    let (same, left) = pure-eq-ok (updated_user arg old) new _ w' h in
    record {
      old = old;
      found = e;
      made = sym same;
      free = ap (λ u. has_row (email_taken u) w.tables.users) (sym same) ∙ t;
      after =
          ap (λ u. u.tables) (sym left)
          ∙ ap {A = User}
              (λ u.
                (with_users w (update_row (user_is arg.username) (λ _. u) w.tables.users)).tables)
              same;
    }

update_user_row-Rewritten :
    (arg : UpdateUserParams) (o : Option User) (w w' : World) {new : User}
    → find_row (user_is arg.username) w.tables.users ≡ o
    → update_user_row arg o w ≡ (ok new, w')
    → Rewritten arg new w.tables w'.tables
update_user_row-Rewritten arg none w w' e h = cc
update_user_row-Rewritten arg (some old) w w' e h =
    write_user-Rewritten arg old (has_row (email_taken (updated_user arg old)) w.tables.users) w w'
      e refl h

pub update_user-Rewritten :
    (arg : UpdateUserParams) (w w' : World) {new : User}
    → update_user arg w ≡ (ok new, w')
    → Rewritten arg new w.tables w'.tables
unfolding update_user
update_user-Rewritten arg w w' h =
    let (later, done) = exchange_ok _ w w' h in
    update_user_row-Rewritten arg _ (record w { faults = later }) w' refl done
