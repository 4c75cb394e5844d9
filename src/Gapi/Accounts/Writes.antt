-- ===== src/Gapi/Accounts/Writes.antt =====
-- What the handlers that change accounts have done when they succeed.
use go_bank.Common.{
  ◌≡◌, ◌≢◌, refl, ap, sym, ◌∙◌, Bool, true, false, ◌&&◌, ◌||◌, Option, none, some, List, some_eq,
  arith, if◌then◌else◌, Bool-cases, inl, inr,
}
use go_bank.Common.Int.{ℤ, eq_ℤ, eq_ℤ-iff, eq_ℤ-ne, eq_ℤ-apart}
use go_bank.Common.Lists.Rows.{Each, has_row-Each, find_row-deselect, find_row-deselect_other}
use go_bank.Common.Lists.{find_row, is_found, has_row, update_row, deselect}
use go_bank.Util.Float.{Float64, float_to_cents}
use go_bank.Db.Models.{Account, Entry, Transfer}
use go_bank.Db.World.{World, Tables, ok, >>=-eq-ok, pure-eq-ok, exchange_ok}
use go_bank.Db.Query.Page.{account_is}
use go_bank.Db.Query.Accounts as Query
use go_bank.Db.Query.Accounts.{
  CreateAccountParams, UpdateAccountParams, same_owner_currency, is_referenced, set_row,
}
use go_bank.Gapi.Server.{Server, Context}
use go_bank.Gapi.Accounts.{
  PbAccount, convert_account, not_found_or_internal, authorize_account, validate_id_request,
  validate_update_account_request, update_account, delete_account,
}
use go_bank.Gapi.Guards.{after_reject, after_or_else, or_else_passed}
use go_bank.Gapi.Guards.Accounts.{Owns, authorize_account-Owns}

set_row_ok :
    (arg : UpdateAccountParams) (o : Option Account) (w w' : World) {new : Account}
    → set_row arg o w ≡ (ok new, w')
    → (old : Account) × (o ≡ some old)
      × (new ≡ record old { balance = arg.balance })
      × (w'.tables ≡ record (w.tables) {
        accounts = update_row (account_is arg.id) (λ _. new) w.tables.accounts;
      })
set_row_ok arg none w w' h = cc
set_row_ok arg (some old) w w' h =
    let (same, left) = pure-eq-ok _ _ _ w' h in
    (
      old,
      refl,
      sym same,
      ap (λ u. u.tables) (sym left)
          ∙ ap
              (λ a. record (w.tables) {
                accounts = update_row (account_is arg.id) (λ _. a) w.tables.accounts;
              })
              same,
    )

update_row_ok :
    (arg : UpdateAccountParams) (w w' : World) {new : Account}
    → Query.update_account arg w ≡ (ok new, w')
    → (old : Account) × (find_row (account_is arg.id) w.tables.accounts ≡ some old)
      × (new ≡ record old { balance = arg.balance })
      × (w'.tables ≡ record (w.tables) {
        accounts = update_row (account_is arg.id) (λ _. new) w.tables.accounts;
      })
unfolding Query.update_account
update_row_ok arg w w' h =
    let (later, done) = exchange_ok _ w w' h in
    set_row_ok arg _ (record w { faults = later }) w' done

-- UpdateAccount succeeds only for the owner of the account; it then sets the balance of that row to
-- the given amount in cents and changes nothing else.
pub update_account-Owns :
    (server : Server) (ctx : Context) (id : ℤ) (balance : Float64) (w w' : World) {rsp : PbAccount}
    → update_account server ctx id balance w ≡ (ok rsp, w')
    → (old : Account) × (new : Account) × Owns ctx id w.tables old
      × (new ≡ record old { balance = float_to_cents server.out_of_range balance })
      × (rsp ≡ convert_account new)
      × (w'.tables ≡ record (w.tables) {
        accounts = update_row (account_is id) (λ _. new) w.tables.accounts;
      })
unfolding update_account
update_account-Owns server ctx id balance w w' {rsp} h =
    let cents = float_to_cents server.out_of_range balance in
    let arg : UpdateAccountParams = record { id = id; balance = cents } in
    let (_, h1) = after_reject (validate_update_account_request id balance) _ w w' h in
    let (a, v, allowed, h2) = >>=-eq-ok (authorize_account ctx id) _ w w' h1 in
    let (owns, kept) = authorize_account-Owns ctx id w v allowed in
    let (new, u, wrote, done) =
      after_or_else (Query.update_account arg) not_found_or_internal _ v w' h2 in
    let (old, found, made, after) = update_row_ok arg v u wrote in
    let same : old ≡ a =
      some_eq (sym found ∙ ap (λ t. find_row (account_is id) t.accounts) kept ∙ owns.found) in
    let (answer, left) = pure-eq-ok _ rsp u w' done in
    (
      a,
      new,
      owns,
      made ∙ ap {A = Account} (λ x. record x { balance = cents }) same,
      sym answer,
      ap (λ x. x.tables) (sym left)
          ∙ after
          ∙ ap {A = Tables}
              (λ t. record t { accounts = update_row (account_is id) (λ _. new) t.accounts }) kept,
    )

deleted :
    (id : ℤ) (w w' : World)
    → Query.delete_account id w ≡ (ok tt, w')
    → ((has_row (account_is id) w.tables.accounts && is_referenced id w) ≡ false)
      × (w'.tables ≡ record (w.tables) { accounts = deselect (account_is id) w.tables.accounts })
unfolding Query.delete_account
deleted id w w' h = let (later, done) = exchange_ok _ w w' h in ground arith

and_right : (a b : Bool) → a ≡ true → (a && b) ≡ false → b ≡ false
and_right true b h k = k
and_right false b h k = cc

unreferenced_rows :
    (id : ℤ) (w : World)
    → is_referenced id w ≡ false
    → Each (λ (e : Entry). e.account_id ≢ id) w.tables.entries
      × Each
          (λ (t : Transfer). (t.from_account_id ≢ id) × (t.to_account_id ≢ id))
          w.tables.transfers
unreferenced_rows id w h = (
  has_row-Each (λ e. eq_ℤ e.account_id id) _ w.tables.entries
      (λ e miss. eq_ℤ-apart e.account_id id miss) (ground arith),
  has_row-Each (λ t. eq_ℤ t.from_account_id id || eq_ℤ t.to_account_id id) _ w.tables.transfers
      (λ t miss. (
        eq_ℤ-apart t.from_account_id id (ground arith),
        eq_ℤ-apart t.to_account_id id (ground arith),
      ))
      (ground arith),
)

without :
    (id other : ℤ) (rows : List Account)
    → find_row (account_is other) (deselect (account_is id) rows)
      ≡ (if eq_ℤ other id then none else find_row (account_is other) rows)
without id other rows = elim (Bool-cases (eq_ℤ other id)) [
  | inl same ↦
      let e = (eq_ℤ-iff other id).0 same in
      rw same (
        ap (λ i. find_row (account_is i) (deselect (account_is id) rows)) e
        ∙ find_row-deselect (account_is id) rows)
  | inr apart ↦
      let ne : other ≢ id = λ e. ground (arith, (eq_ℤ-iff other id).1) in
      rw apart (
        find_row-deselect_other (account_is id) (account_is other) rows
          (λ x hit. eq_ℤ-ne x.id other (λ e. ne (sym e ∙ (eq_ℤ-iff x.id id).0 hit))))
]

-- DeleteAccount succeeds only for the owner of an account that no entry and no transfer refers to; the
-- account is then gone, and every other account is as it was.
pub delete_account-Owns :
    (ctx : Context) (id : ℤ) (w w' : World)
    → delete_account ctx id w ≡ (ok tt, w')
    → (old : Account) × Owns ctx id w.tables old
      × Each (λ (e : Entry). e.account_id ≢ id) w.tables.entries
      × Each
          (λ (t : Transfer). (t.from_account_id ≢ id) × (t.to_account_id ≢ id))
          w.tables.transfers
      × ((other : ℤ)
          → find_row (account_is other) w'.tables.accounts
            ≡ (if eq_ℤ other id then none else find_row (account_is other) w.tables.accounts))
unfolding delete_account
delete_account-Owns ctx id w w' h =
    let (_, h1) = after_reject (validate_id_request id) _ w w' h in
    let (a, v, allowed, h2) = >>=-eq-ok (authorize_account ctx id) _ w w' h1 in
    let (owns, kept) = authorize_account-Owns ctx id w v allowed in
    let (free, after) =
      deleted id v w' (or_else_passed (Query.delete_account id) not_found_or_internal v w' h2) in
    let there : has_row (account_is id) v.tables.accounts ≡ true =
      ap (λ t. has_row (account_is id) t.accounts) kept ∙ ap is_found owns.found in
    let unreferenced = and_right _ (is_referenced id v) there free in
    let (free_entries, free_transfers) = unreferenced_rows id w (
      ap {A = Tables} (λ t. is_referenced id (record w { tables = t })) (sym kept)
      ∙ unreferenced) in
    let rows = ap (λ t. t.accounts) after ∙ ap (λ t. deselect (account_is id) t.accounts) kept in
    (
      a,
      owns,
      free_entries,
      free_transfers,
      λ other. ap (find_row (account_is other)) rows ∙ without id other w.tables.accounts,
    )
