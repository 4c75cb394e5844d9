-- ===== src/Db/Query/Accounts/Credit.antt =====
-- What AddAccountBalance has done when it succeeds, and the total of the balances.
use go_bank.Common.{
  ◌≡◌, ◌≢◌, ◌∙◌, refl, ap, sym, Option, none, some, List, [], ◌∷◌, arith, Bool, true, false,
  Bool-cases, inl, inr,
}
use go_bank.Common.Int.{ℤ, pos, ◌+ℤ◌, in_int64, int_laws, parts_of_eq, eq_ℤ-iff, eq_ℤ-ne}
use go_bank.Common.Lists.{find_row, update_row}
use go_bank.Common.Lists.Rows.{find_row-holds, find_row-update_row_self, find_row-update_row_other}
use go_bank.Db.Models.{Account}
use go_bank.Db.World.{World, Tables, ok, exchange_ok, with_accounts}
use go_bank.Db.Query.Page.{account_is}
use go_bank.Db.Query.Accounts.{AddAccountBalanceParams, credit_row, add_to_row, add_account_balance}

-- The money in a table of accounts.
abbrev pub total : List Account → ℤ
total [] = pos 0
total (a ∷ rows) = a.balance +ℤ total rows

-- The row that was found, the row that was returned, and the tables before and after.
pub record Credited (arg : AddAccountBalanceParams) (new : Account) (t t' : Tables) : Type 0 where
  pub old : Account
  pub found : find_row (account_is arg.id) t.accounts ≡ some old
  pub returned : new ≡ record old { balance = old.balance +ℤ arg.amount }
  pub in_range : in_int64 (old.balance +ℤ arg.amount) ≡ true
  pub after : t' ≡ record t { accounts = update_row (account_is arg.id) (λ _. new) t.accounts }

credit_row-Credited :
    (arg : AddAccountBalanceParams) (a : Account) (fits : Bool) (w w' : World) {new : Account}
    → find_row (account_is arg.id) w.tables.accounts ≡ some a
    → in_int64 (a.balance +ℤ arg.amount) ≡ fits
    → credit_row fits arg a w ≡ (ok new, w')
    → Credited arg new w.tables w'.tables
credit_row-Credited arg a false w w' e r h = cc
credit_row-Credited arg a true w w' {new} e r h =
    let same : record a { balance = a.balance +ℤ arg.amount } ≡ new = ground arith in
    let left : with_accounts w (
          update_row (account_is arg.id) (λ _. record a { balance = a.balance +ℤ arg.amount })
            w.tables.accounts)
        ≡ w' =
      ap (λ p. p.1) h in
    record { old = a; found = e; returned = sym same; in_range = r; after = rw (← left, same) }

add_to_row-Credited :
    (arg : AddAccountBalanceParams) (o : Option Account) (w w' : World) {new : Account}
    → find_row (account_is arg.id) w.tables.accounts ≡ o
    → add_to_row arg o w ≡ (ok new, w')
    → Credited arg new w.tables w'.tables
add_to_row-Credited arg none w w' e h = cc
add_to_row-Credited arg (some a) w w' e h =
    credit_row-Credited arg a (in_int64 (a.balance +ℤ arg.amount)) w w' e refl h

pub add_account_balance-Credited :
    (arg : AddAccountBalanceParams) (w w' : World) {new : Account}
    → add_account_balance arg w ≡ (ok new, w')
    → Credited arg new w.tables w'.tables
unfolding add_account_balance
add_account_balance-Credited arg w w' h =
    let (later, done) = exchange_ok _ w w' h in
    add_to_row-Credited arg _ (record w { faults = later }) w' refl done

pub total-update_row :
    (p : Account → Bool) (old new : Account) (rows : List Account)
    → find_row p rows ≡ some old
    → total (update_row p (λ _. new) rows) +ℤ old.balance ≡ total rows +ℤ new.balance
total-update_row p old new [] e = cc
total-update_row p old new (x ∷ rows) e = elim (Bool-cases (p x)) [
  | inl hit ↦ let same : x ≡ old = ground arith in rw (hit, same) (omega int_laws)
  | inr miss ↦
      let ih = total-update_row p old new rows (rw (miss, find_row) at e) in
      rw (miss, update_row) (omega (int_laws, parts_of_eq ih))
]

module _ {arg : AddAccountBalanceParams} {new : Account} {t t' : Tables}
    (c : Credited arg new t t') where
  pub Credited-total : total t'.accounts ≡ total t.accounts +ℤ arg.amount
  Credited-total =
      let moved = total-update_row (account_is arg.id) c.old new t.accounts c.found in
      let grown : new.balance ≡ c.old.balance +ℤ arg.amount = ap (λ a. a.balance) c.returned in
      ap (λ u. total u.accounts) c.after ∙ omega (int_laws, parts_of_eq moved, parts_of_eq grown)

  pub Credited-id : new.id ≡ arg.id
  Credited-id =
      ap (λ a. a.id) c.returned
      ∙ (eq_ℤ-iff _ _).0 (find_row-holds (account_is arg.id) t.accounts c.old c.found)

  -- The row is now the one that was returned.
  pub Credited-self : find_row (account_is arg.id) t'.accounts ≡ some new
  Credited-self =
      ap (λ u. find_row (account_is arg.id) u.accounts) c.after
      ∙ find_row-update_row_self (account_is arg.id) t.accounts (λ _. new) c.old c.found
          ((eq_ℤ-iff new.id arg.id).1 Credited-id)

  -- Every other row is as it was.
  pub Credited-other :
      (id : ℤ)
      → id ≢ arg.id
      → find_row (account_is id) t'.accounts ≡ find_row (account_is id) t.accounts
  Credited-other id apart =
      ap (λ u. find_row (account_is id) u.accounts) c.after
      ∙ find_row-update_row_other (account_is arg.id) (account_is id) (λ _. new) t.accounts
          (λ x h. eq_ℤ-ne x.id id (λ e. apart (sym e ∙ (eq_ℤ-iff x.id arg.id).0 h)))
          (λ x h. eq_ℤ-ne new.id id (λ e. apart (sym e ∙ Credited-id)))
