-- ===== src/Gapi/Accounts/Paging.antt =====
-- The pages of ListAccounts.
use go_bank.Common.{
  ℕ, suc, ◌*◌, ◌^◌, ◌<◌, ◌≤◌, ◌≡◌, refl, ap, sym, ◌∙◌, true, some, List, [], map, String, str_eq,
  arith,
}
use go_bank.Common.Int.{pos, ◌-ℤ◌, ◌*ℤ◌, ◌≤ℤ◌, ltb_ℤ, wrap_int32}
use go_bank.Common.Lists.{take, drop, filter_rows}
use mathlib.Core.List.{Perm, Pairwise}
use native.Mathlib.Bridge.{le_prop}
use go_bank.Common.Lists.Order.{order_by-perm, order_by-Pairwise}
use go_bank.Token.Payload.{Payload}
use go_bank.Db.Models.{Account}
use go_bank.Db.World.{World, pg_error, invalid_offset, ok, err, exchange, pure-eq-ok, exchange_ok}
use go_bank.Db.Query.Page.{page_rows}
use go_bank.Db.Query.Accounts as Query
use go_bank.Db.Query.Accounts.{ListAccountsParams, accounts_of, owned_by, id_before}
use go_bank.Gapi.Status.{status, internal}
use go_bank.Gapi.Server.{Context}
use go_bank.Gapi.Accounts.{
  PbAccount, convert_account, validate_list_accounts_request, page_offset, any_internal,
  list_accounts,
}
use go_bank.Gapi.Guards.{after_reject, after_caller, after_or_else}

wrap_small : (n : ℕ) → n < 2 ^ 31 → wrap_int32 (pos n) ≡ pos n
unfolding wrap_int32
wrap_small n h = ground arith

wrap_large : (n : ℕ) → 2 ^ 31 ≤ n → n < 2 ^ 32 → ltb_ℤ (wrap_int32 (pos n)) (pos 0) ≡ true
unfolding wrap_int32
wrap_large n h k = ground arith

one_less : (i : ℕ) → pos (suc i) -ℤ pos 1 ≡ pos i
unfolding ◌-ℤ◌
one_less i = ground arith

pos_times : (i size : ℕ) → pos i *ℤ pos size ≡ pos (i * size)
unfolding ◌*ℤ◌
pos_times i size = ground arith

page_start :
    (i size : ℕ) → i < 2 ^ 31 → page_offset (pos (suc i)) (pos size) ≡ wrap_int32 (pos (i * size))
unfolding page_offset
page_start i size h = rw (one_less i, wrap_small i h, pos_times i size)

page_rows_ok :
    {A : Type 0} (limit offset : ℕ) (rows rows' : List A)
    → page_rows (pos limit) (pos offset) rows ≡ ok rows'
    → rows' ≡ take limit (drop offset rows)
unfolding page_rows
page_rows_ok limit offset rows rows' h = ground arith

listed :
    (arg : ListAccountsParams) (size offset : ℕ) (w w' : World) {rows : List Account}
    → arg.limit ≡ pos size
    → arg.offset ≡ pos offset
    → Query.list_accounts arg w ≡ (ok rows, w')
    → rows ≡ take size (drop offset (accounts_of arg.owner w))
unfolding Query.list_accounts
listed arg size offset w w' {rows} l o h =
    let (later, done) = exchange_ok _ w w' h in
    page_rows_ok size offset _ rows (
      ap (λ x. page_rows x (pos offset) (accounts_of arg.owner w)) (sym l)
      ∙ ap (λ x. page_rows arg.limit x (accounts_of arg.owner w)) (sym o)
      ∙ ap (λ r. r.0) done)

-- The accounts of an owner in ascending order of their ids.
pub record InOrder (owner : String) (rows all : List Account) : Type 0 where
  pub ascending : Pairwise (λ (a b : Account). a.id ≤ℤ b.id) all
  pub same_rows : Perm all (filter_rows (λ (a : Account). str_eq a.owner owner) rows)

accounts_of-InOrder :
    (owner : String) (w : World) → InOrder owner w.tables.accounts (accounts_of owner w)
accounts_of-InOrder owner w = record {
  ascending =
      order_by-Pairwise id_before (λ a b. a.id ≤ℤ b.id) (λ a b. le_prop) (λ a b h. ground arith)
        (λ a b h. ground arith) (λ a b c h k. omega arith)
        (filter_rows (owned_by owner) w.tables.accounts);
  same_rows = order_by-perm id_before (filter_rows (owned_by owner) w.tables.accounts);
}

-- Where the product of the page's index and its size fits in an int32, a ListAccounts that succeeds answers
-- with that page of the caller's accounts: of the stored accounts whose owner is the caller, each as often
-- as it is stored, in ascending order of their ids, it leaves out those of the pages before and shows
-- the next, as many as a page has or are left.
pub list_accounts_page :
    (ctx : Context) (i size : ℕ) (w w' : World) {rsp : List PbAccount}
    → i < 2 ^ 31
    → i * size < 2 ^ 31
    → list_accounts ctx (pos (suc i)) (pos size) w ≡ (ok rsp, w')
    → (p : Payload) × (all : List Account) × (ctx.auth_payload ≡ some p)
      × InOrder p.username w.tables.accounts all
      × (rsp ≡ map convert_account (take size (drop (i * size) all)))
unfolding list_accounts
list_accounts_page ctx i size w w' {rsp} small fits h =
    let (_, h1) = after_reject (validate_list_accounts_request (pos (suc i)) (pos size)) _ w w' h in
    let (p, who, h2) = after_caller ctx _ w w' h1 in
    let (rows, v, got, done) = after_or_else (Query.list_accounts _) any_internal _ w w' h2 in
    let offset = page_start i size small ∙ wrap_small (i * size) fits in
    let page = listed _ size (i * size) w v refl offset got in
    (
      p,
      accounts_of p.username w,
      who,
      accounts_of-InOrder p.username w,
      sym (pure-eq-ok _ rsp v w' done).0 ∙ ap (map convert_account) page,
    )

negative_offset :
    (arg : ListAccountsParams) (w : World)
    → ltb_ℤ arg.offset (pos 0) ≡ true
    → w.faults ≡ []
    → Query.list_accounts arg w ≡ (err (pg_error invalid_offset), w)
unfolding Query.list_accounts exchange page_rows
negative_offset arg w h quiet = rw (quiet, h)

-- Where that product is at least 2 ^ 31 and below 2 ^ 32 it wraps around to a negative offset: a valid request
-- of an authenticated caller is then answered with Internal, without a fault.
pub list_accounts_overflow :
    (ctx : Context) (i size : ℕ) (w : World) (p : Payload)
    → i < 2 ^ 31
    → 2 ^ 31 ≤ i * size
    → i * size < 2 ^ 32
    → validate_list_accounts_request (pos (suc i)) (pos size) ≡ []
    → ctx.auth_payload ≡ some p
    → w.faults ≡ []
    → list_accounts ctx (pos (suc i)) (pos size) w ≡ (err (status internal), w)
unfolding list_accounts
list_accounts_overflow ctx i size w p small over under valid who quiet =
    let below : ltb_ℤ (page_offset (pos (suc i)) (pos size)) (pos 0) ≡ true =
      ap (λ x. ltb_ℤ x (pos 0)) (page_start i size small) ∙ wrap_large (i * size) over under in
    rw (
      valid,
      who,
      negative_offset
          (record {
            owner = p.username;
            limit = pos size;
            offset = page_offset (pos (suc i)) (pos size);
          })
          w below quiet,
    )
