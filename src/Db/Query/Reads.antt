-- ===== src/Db/Query/Reads.antt =====
-- What a read has found when it succeeds; it leaves the tables as they were.
use go_bank.Common.{ℕ, ◌≡◌, ap, sym, Option, none, some, String, arith}
use go_bank.Common.Int.{ℤ}
use go_bank.Common.Lists.{find_row}
use go_bank.Db.Models.{Account, Session, User}
use go_bank.Db.World.{World, Result, ok, DbError, exchange_ok}
use go_bank.Db.Query.Page.{one_row, account_is, user_is}
use go_bank.Db.Query.Accounts.{get_account}
use go_bank.Db.Query.Users.{get_user}
use go_bank.Db.Query.Sessions.{session_is, get_session}

pub one_row-eq-ok : {A : Type 0} (o : Option A) {a : A} → one_row o ≡ ok a → o ≡ some a
one_row-eq-ok none h = cc
one_row-eq-ok (some x) h = ground arith

read_row :
    {A : Type 0} (o : Option A) (w w' : World) {a : A}
    → ◌≡◌ {A = Result DbError A × World} (one_row o, w) (ok a, w')
    → (o ≡ some a) × (w'.tables ≡ w.tables)
read_row o w w' h = (one_row-eq-ok o (ap (λ p. p.0) h), ap (λ p. p.1.tables) (sym h))

pub get_account_found :
    (id : ℤ) (w w' : World) {a : Account}
    → get_account id w ≡ (ok a, w')
    → (find_row (account_is id) w.tables.accounts ≡ some a) × (w'.tables ≡ w.tables)
unfolding get_account
get_account_found id w w' h =
    let (later, done) = exchange_ok _ w w' h in read_row _ (record w { faults = later }) w' done

pub get_user_found :
    (username : String) (w w' : World) {u : User}
    → get_user username w ≡ (ok u, w')
    → (find_row (user_is username) w.tables.users ≡ some u) × (w'.tables ≡ w.tables)
unfolding get_user
get_user_found username w w' h =
    let (later, done) = exchange_ok _ w w' h in read_row _ (record w { faults = later }) w' done

pub get_session_found :
    (id : ℕ) (w w' : World) {s : Session}
    → get_session id w ≡ (ok s, w')
    → (find_row (session_is id) w.tables.sessions ≡ some s) × (w'.tables ≡ w.tables)
unfolding get_session
get_session_found id w w' h =
    let (later, done) = exchange_ok _ w w' h in read_row _ (record w { faults = later }) w' done
