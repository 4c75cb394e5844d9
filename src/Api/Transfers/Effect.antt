-- ===== src/Api/Transfers/Effect.antt =====
-- What createTransfer has checked and done when it succeeds.
use go_bank.Common.{◌≡◌, ◌≢◌, ap, sym, ◌∙◌, true, false, not, some, String, str_eq, arith}
use go_bank.Common.Int.{ℤ, ◌≤ℤ◌, ltb_ℤ, min_int64}
use go_bank.Common.Lists.{find_row}
use go_bank.Util.Float.{float_to_cents}
use go_bank.Token.Payload.{Payload}
use go_bank.Db.Models.{Account}
use go_bank.Db.World.{World, Tables, ok, >>=-eq-ok, pure-eq-ok, on_return}
use go_bank.Db.Query.Page.{account_is}
use go_bank.Db.Query.Accounts.{get_account}
use go_bank.Db.Query.Accounts.Credit.{total}
use go_bank.Db.Query.Reads.{get_account_found}
use go_bank.Db.Tx.Transfer.{TransferTxParams, transfer_tx}
use go_bank.Db.Tx.Transfer.Money.{transfer_tx-total}
use go_bank.Gapi.Guards.{after_or_else, same_text}
use go_bank.Api.Status.{not_found_or_500, any_500}
use go_bank.Api.Server.{Server, GinContext}
use go_bank.Api.Guards.{after_bind, after_abort_if, after_must_get}
use go_bank.Api.Transfers.{
  TransferRequest, TransferTxResultJson, transfer_tags, valid_account, check_transfer,
  commit_transfer, create_transfer,
}

valid_account_found :
    (id : ℤ) (currency : String) (w w' : World) {a : Account}
    → valid_account id currency w ≡ (ok a, w')
    → (find_row (account_is id) w.tables.accounts ≡ some a)
      × (a.currency ≡ currency)
      × (w'.tables ≡ w.tables)
unfolding valid_account
valid_account_found id currency w w' {a} h =
    let (b, v, got, h1) = after_or_else (get_account id) not_found_or_500 _ w w' h in
    let (same, done) = after_abort_if (not (str_eq b.currency currency)) _ _ v w' h1 in
    let (found, kept) = get_account_found id w v got in
    on_return
      (λ x u.
        (find_row (account_is id) w.tables.accounts ≡ some x)
        × (x.currency ≡ currency)
        × (u.tables ≡ w.tables))
      done (found, same_text b.currency currency same, kept)

-- The amount of the request in cents.
abbrev pub requested : Server → TransferRequest → ℤ
requested server req = float_to_cents server.libraries.out_of_range req.amount

abbrev pub params : ℤ → TransferRequest → TransferTxParams
params cents req = record {
  from_account_id = req.from_account_id;
  to_account_id = req.to_account_id;
  amount = cents;
}

-- All that createTransfer checks, on the tables that it reads; the accounts may be one.
pub record Allowed (cents : ℤ) (ctx : GinContext) (req : TransferRequest) (t : Tables)
    : Type 0 where
  pub caller : Payload
  pub authenticated : ctx.payload ≡ some caller
  pub source : Account
  pub source_found : find_row (account_is req.from_account_id) t.accounts ≡ some source
  pub owner : source.owner ≡ caller.username
  pub source_currency : source.currency ≡ req.currency
  pub target : Account
  pub target_found : find_row (account_is req.to_account_id) t.accounts ≡ some target
  pub target_currency : target.currency ≡ req.currency
  pub covered : cents ≤ℤ source.balance

enough : (balance cents : ℤ) → ltb_ℤ balance cents ≡ false → cents ≤ℤ balance
enough balance cents h = ground arith

module _ (server : Server) (ctx : GinContext) (req : TransferRequest) where
  check_transfer-Allowed :
      (w w' : World) {arg : TransferTxParams}
      → check_transfer server ctx (some req) w ≡ (ok arg, w')
      → Allowed (requested server req) ctx req w.tables
        × (transfer_tags server.libraries.validator req ≡ true)
        × (arg ≡ params (requested server req) req)
        × (w'.tables ≡ w.tables)
  unfolding check_transfer
  check_transfer-Allowed w w' h =
      let (tags, h1) = after_bind req (transfer_tags server.libraries.validator) _ w w' h in
      let (a, v1, got1, h2) =
        >>=-eq-ok (valid_account req.from_account_id req.currency) _ w w' h1 in
      let (p, who, h3) = after_must_get ctx _ v1 w' h2 in
      let (mine, h4) = after_abort_if (not (str_eq a.owner p.username)) _ _ v1 w' h3 in
      let (b, v2, got2, h5) = >>=-eq-ok (valid_account req.to_account_id req.currency) _ v1 w' h4 in
      let (covers, done) = after_abort_if (ltb_ℤ a.balance (requested server req)) _ _ v2 w' h5 in
      let (found1, cur1, kept1) = valid_account_found _ _ w v1 got1 in
      let (found2, cur2, kept2) = valid_account_found _ _ v1 v2 got2 in
      let (same, left) = pure-eq-ok _ _ v2 w' done in
      (
        record {
          caller = p;
          authenticated = who;
          source = a;
          source_found = found1;
          owner = same_text a.owner p.username mine;
          source_currency = cur1;
          target = b;
          target_found =
              ap (λ t. find_row (account_is req.to_account_id) t.accounts) (sym kept1) ∙ found2;
          target_currency = cur2;
          covered = enough a.balance (requested server req) covers;
        },
        tags,
        sym same,
        ap (λ u. u.tables) (sym left) ∙ kept2 ∙ kept1,
      )

  -- A transfer that the REST server answers with success has passed the tags; its caller owns the source, both
  -- accounts are stored in the request's currency and the source holds the amount; and the money in
  -- the bank is conserved, also where the two accounts are one, which the tags allow. The amount in
  -- cents must not be the least int64.
  pub create_transfer-Allowed :
      (w w' : World) {rsp : TransferTxResultJson}
      → requested server req ≢ min_int64
      → create_transfer server ctx (some req) w ≡ (ok rsp, w')
      → Allowed (requested server req) ctx req w.tables
        × (transfer_tags server.libraries.validator req ≡ true)
        × (total w'.tables.accounts ≡ total w.tables.accounts)
  unfolding create_transfer commit_transfer
  create_transfer-Allowed w w' exact h =
      let (arg, v, checked, h1) =
        >>=-eq-ok (check_transfer server ctx (some req)) commit_transfer w w' h in
      let (allowed, tags, same, kept) = check_transfer-Allowed w v checked in
      let (r, u, ran, done) = after_or_else (transfer_tx arg) any_500 _ v w' h1 in
      let left = (pure-eq-ok _ _ u w' done).1 in
      (
        allowed,
        tags,
        ap (λ x. total x.tables.accounts) (sym left)
            ∙ transfer_tx-total arg v u r (λ e. exact (sym (ap (λ a. a.amount) same) ∙ e)) ran
            ∙ ap (λ t. total t.accounts) kept,
      )
