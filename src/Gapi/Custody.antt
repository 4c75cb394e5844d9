-- ===== src/Gapi/Custody.antt =====
-- What a call of gapi/ can take from an account, by whether its caller is the owner.
use go_bank.Common.{
  ◌≡◌, ◌≢◌, refl, ap, sym, ◌∙◌, false, Bool-cases, ◌⊎◌, inl, inr, some, some_eq, List, [], ◌∷◌,
  ◌++◌, String, arith,
}
use mathlib.Core.Path.{subst}
use go_bank.Common.Int.{
  ℤ, pos, ◌+ℤ◌, ◌≤ℤ◌, eq_ℤ, eq_ℤ-iff, eq_ℤ-ne, eq_ℤ-apart, min_int64, int_laws,
}
use go_bank.Common.Lists.{find_row}
use go_bank.Common.Lists.Rows.{find_row-holds, find_row-update_row_other}
use go_bank.Util.Float.{Float64}
use go_bank.Token.Payload.{Payload}
use go_bank.Db.Models.{Account}
use go_bank.Db.World.{World, Tables, Result, ok, err, exchange_ok, pure-eq-ok}
use go_bank.Db.Query.Page.{account_is}
use go_bank.Db.Query.Accounts as Query
use go_bank.Db.Query.Accounts.{CreateAccountParams}
use go_bank.Gapi.Status.{Status}
use go_bank.Gapi.Server.{Server, Context}
use go_bank.Gapi.Accounts.{
  PbAccount, convert_account, validate_create_account_request, create_account_error, create_account,
  update_account, delete_account,
}
use go_bank.Gapi.Accounts.Writes.{update_account-Owns, delete_account-Owns}
use go_bank.Gapi.Transfers.{CreateTransferRequest, CreateTransferResponse, create_transfer}
use go_bank.Gapi.Transfers.Effect.{create_transfer-Shifted}
use go_bank.Gapi.Guards.{after_reject, after_caller, after_or_else}
use go_bank.Gapi.Guards.Transfers.{requested}
use go_bank.Gapi.Effects.{create_transfer-IsAtomic, accounts-IsAtomic}

-- The account is still there, with its owner and currency, and holds no less.
pub record Kept (id : ℤ) (a : Account) (t : Tables) : Type 0 where
  pub row : Account
  pub found : find_row (account_is id) t.accounts ≡ some row
  pub owner : row.owner ≡ a.owner
  pub currency : row.currency ≡ a.currency
  pub balance : a.balance ≤ℤ row.balance

-- The account is kept, or the caller is its owner.
abbrev pub Guarded : Context → ℤ → Account → Tables → Type 0
Guarded ctx id a t =
    Kept id a t ⊎ (p : Payload) × (ctx.auth_payload ≡ some p) × (p.username ≡ a.owner)

pub still_there :
    (id : ℤ) (a : Account) (t : Tables) → find_row (account_is id) t.accounts ≡ some a → Kept id a t
still_there id a t h = record {
  row = a;
  found = h;
  owner = refl;
  currency = refl;
  balance = omega arith;
}

find_row-append :
    (id : ℤ) (xs ys : List Account) (a : Account)
    → find_row (account_is id) xs ≡ some a
    → find_row (account_is id) (xs ++ ys) ≡ some a
find_row-append id [] ys a h = cc
find_row-append id (x ∷ xs) ys a h = elim (Bool-cases (eq_ℤ x.id id)) [
  | inl hit ↦ rw hit (rw hit at h)
  | inr miss ↦ rw miss (find_row-append id xs ys a (rw miss at h))
]

created :
    (arg : CreateAccountParams) (w w' : World) {row : Account}
    → Query.create_account arg w ≡ (ok row, w')
    → w'.tables.accounts ≡ w.tables.accounts ++ row ∷ []
unfolding Query.create_account
created arg w w' h = let (later, done) = exchange_ok _ w w' h in ground arith

nonnegative : (c : ℤ) → pos 0 ≤ℤ c → c ≢ min_int64
nonnegative c h e = let k = subst (λ x. pos 0 ≤ℤ x) e h in omega arith

credit : (b c : ℤ) → pos 0 ≤ℤ c → b ≤ℤ (b +ℤ c)
credit b c h = omega int_laws

module _ (server : Server) (ctx : Context) (id : ℤ) (a : Account) (w : World)
    (stored : find_row (account_is id) w.tables.accounts ≡ some a) where
  pub unchanged : (t : Tables) → t.accounts ≡ w.tables.accounts → Guarded ctx id a t
  unchanged t same = inl (still_there id a t (ap (find_row (account_is id)) same ∙ stored))

  pub create_transfer-Guarded :
      (req : CreateTransferRequest)
      → pos 0 ≤ℤ requested server req
      → (r : Result Status CreateTransferResponse) (v : World)
      → create_transfer server ctx req w ≡ (r, v)
      → Guarded ctx id a v.tables
  create_transfer-Guarded req up (err x) v e =
      unchanged v.tables
        (ap (λ t. t.accounts) ((create_transfer-IsAtomic server ctx req).undone w v x e))
  create_transfer-Guarded req up (ok rsp) v e =
      let (clear, shift, _, _, _, _) =
        create_transfer-Shifted server ctx req w v (nonnegative _ up) e in
      elim (shift.others id) [
        | inl source ↦
            let same : a ≡ clear.source = some_eq (
              sym stored
              ∙ ap (λ i. find_row (account_is i) w.tables.accounts) source
              ∙ clear.source_found) in
            inr (clear.caller, clear.authenticated, sym clear.owner ∙ ap (λ x. x.owner) (sym same))
        | inr (inl target) ↦
            let same : shift.target ≡ a = some_eq (
              sym shift.had_target
              ∙ ap (λ i. find_row (account_is i) w.tables.accounts) (sym target)
              ∙ stored) in
            inl (record {
              row = record (shift.target) {
                balance = shift.target.balance +ℤ requested server req;
              };
              found = ap (λ i. find_row (account_is i) v.tables.accounts) target ∙ shift.credited;
              owner = ap (λ x. x.owner) same;
              currency = ap (λ x. x.currency) same;
              balance =
                  subst (λ x. x.balance ≤ℤ (shift.target.balance +ℤ requested server req)) same
                    (credit shift.target.balance (requested server req) up);
            })
        | inr (inr same) ↦ inl (still_there id a v.tables (same ∙ stored))
      ]

  pub create_account-Guarded :
      (currency : String) (r : Result Status PbAccount) (v : World)
      → create_account ctx currency w ≡ (r, v)
      → Guarded ctx id a v.tables
  unfolding create_account
  create_account-Guarded currency (err x) v e =
      unchanged v.tables
        (ap (λ t. t.accounts) ((accounts-IsAtomic server ctx id currency 0).0.undone w v x e))
  create_account-Guarded currency (ok rsp) v e =
      let (_, h1) = after_reject (validate_create_account_request currency) _ w v e in
      let (p, _, h2) = after_caller ctx _ w v h1 in
      let arg : CreateAccountParams = record {
        owner = p.username;
        balance = pos 0;
        currency = currency;
      } in
      let (row, u, made, done) =
        after_or_else (Query.create_account arg) create_account_error _ w v h2 in
      let (_, left) = pure-eq-ok (convert_account row) rsp u v done in
      let rows = ap (λ x. x.tables.accounts) (sym left) ∙ created arg w u made in
      inl (
        still_there id a v.tables (
          ap (find_row (account_is id)) rows
          ∙ find_row-append id w.tables.accounts (row ∷ []) a stored))

  pub delete_account-Guarded :
      (i : ℤ) (r : Result Status (Unit {0})) (v : World)
      → delete_account ctx i w ≡ (r, v)
      → Guarded ctx id a v.tables
  delete_account-Guarded i (err x) v e =
      unchanged v.tables
        (ap (λ t. t.accounts) ((accounts-IsAtomic server ctx i "" 0).2.undone w v x e))
  delete_account-Guarded i (ok tt) v e =
      let (old, owns, _, _, others) = delete_account-Owns ctx i w v e in
      elim (Bool-cases (eq_ℤ id i)) [
        | inl h ↦
            let same : a ≡ old = some_eq (
              sym stored
              ∙ ap (λ i. find_row (account_is i) w.tables.accounts) ((eq_ℤ-iff id i).0 h)
              ∙ owns.found) in
            inr (owns.caller, owns.authenticated, sym owns.owner ∙ ap (λ x. x.owner) (sym same))
        | inr n ↦ inl (still_there id a v.tables (rw (others id, n) stored))
      ]

  pub update_account-Guarded :
      (i : ℤ) (amount : Float64) (r : Result Status PbAccount) (v : World)
      → update_account server ctx i amount w ≡ (r, v)
      → Guarded ctx id a v.tables
  update_account-Guarded i amount (err x) v e =
      unchanged v.tables
        (ap (λ t. t.accounts) ((accounts-IsAtomic server ctx i "" amount).1.undone w v x e))
  update_account-Guarded i amount (ok rsp) v e =
      let (old, new, owns, made, _, after) = update_account-Owns server ctx i amount w v e in
      elim (Bool-cases (eq_ℤ id i)) [
        | inl h ↦
            let same : a ≡ old = some_eq (
              sym stored
              ∙ ap (λ i. find_row (account_is i) w.tables.accounts) ((eq_ℤ-iff id i).0 h)
              ∙ owns.found) in
            inr (owns.caller, owns.authenticated, sym owns.owner ∙ ap (λ x. x.owner) (sym same))
        | inr n ↦
            let same_id : old.id ≡ i =
              (eq_ℤ-iff old.id i).0
                (find_row-holds (account_is i) w.tables.accounts old owns.found) in
            let apart : eq_ℤ new.id id ≡ false =
              eq_ℤ-ne new.id id (λ k. eq_ℤ-apart id i n (sym k ∙ ap (λ x. x.id) made ∙ same_id)) in
            inl (
              still_there id a v.tables (
                ap (λ t. find_row (account_is id) t.accounts) after
                ∙ find_row-update_row_other (account_is i) (account_is id) (λ _. new)
                    w.tables.accounts
                    (λ x hit.
                      eq_ℤ-ne x.id id (λ k. eq_ℤ-apart id i n (sym k ∙ (eq_ℤ-iff x.id i).0 hit)))
                    (λ x hit. apart)
                ∙ stored))
      ]
