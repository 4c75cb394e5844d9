-- ===== src/Gapi/Guards/Transfers.antt =====
-- What CreateTransfer has checked before money moves.
use go_bank.Common.{
  ◌≡◌, ◌≢◌, refl, ap, sym, ◌∙◌, Bool, true, false, ◌&&◌, not, some, String, str_eq, [], arith,
}
use go_bank.Common.Int.{ℤ, pos, ◌≤ℤ◌, ◌<ℤ◌, ltb_ℤ, leb_ℤ, eq_ℤ, eq_ℤ-iff}
use go_bank.Common.Lists.{find_row}
use go_bank.Util.Float.{le_zero, float_to_cents}
use go_bank.Val.Validation.{fine, error_if, validate_id, validate_amount, validate_currency}
use go_bank.Token.Payload.{Payload}
use go_bank.Db.Models.{Account}
use go_bank.Db.World.{World, Tables, ok, >>=-eq-ok, pure-eq-ok, on_return}
use go_bank.Db.Query.Page.{account_is}
use go_bank.Db.Query.Accounts.{get_account}
use go_bank.Db.Query.Reads.{get_account_found}
use go_bank.Db.Tx.Transfer.{TransferTxParams}
use go_bank.Gapi.Server.{Server, Context}
use go_bank.Gapi.Accounts.{not_found_or_internal}
use go_bank.Gapi.Transfers.{
  CreateTransferRequest, validate_create_transfer_request, validate_transfer_account,
  check_transfer,
}
use go_bank.Gapi.Guards.{
  after_reject, after_refuse_if, after_caller, after_or_else, same_text, no_violation, both_empty,
}

-- A request whose fields are valid.
pub record IsValid (req : CreateTransferRequest) : Type 0 where
  pub from_id : pos 0 <ℤ req.from_account_id
  pub to_id : pos 0 <ℤ req.to_account_id
  pub amount : le_zero req.amount ≡ false
  pub currency : validate_currency req.currency ≡ fine
  pub distinct : req.from_account_id ≢ req.to_account_id

error_if_fine : (b : Bool) → error_if b ≡ fine → b ≡ false
error_if_fine true h = cc
error_if_fine false h = refl

validate_id_positive : (id : ℤ) → validate_id id ≡ fine → pos 0 <ℤ id
unfolding validate_id
validate_id_positive id h = let no : leb_ℤ id (pos 0) ≡ false = error_if_fine _ h in ground arith

distinct_ids : (a b : ℤ) → pos 0 <ℤ a → (ltb_ℤ (pos 0) a && eq_ℤ a b) ≡ false → a ≢ b
distinct_ids a b p h e = ground (arith, (eq_ℤ-iff a b).1)

pub validate_create_transfer_request-IsValid :
    (req : CreateTransferRequest) → validate_create_transfer_request req ≡ [] → IsValid req
unfolding validate_create_transfer_request validate_amount
validate_create_transfer_request-IsValid req h =
    let (v1, h1) = both_empty _ _ h in
    let (v2, h2) = both_empty _ _ h1 in
    let (v3, h3) = both_empty _ _ h2 in
    let (v4, v5) = both_empty _ _ h3 in
    let from_id = validate_id_positive _ (no_violation _ _ v1) in
    record {
      from_id = from_id;
      to_id = validate_id_positive _ (no_violation _ _ v2);
      amount = error_if_fine _ (no_violation _ _ v3);
      currency = no_violation _ _ v4;
      distinct = distinct_ids _ _ from_id (error_if_fine _ (no_violation _ _ v5));
    }

pub validate_transfer_account_found :
    (id : ℤ) (currency : String) (w w' : World) {a : Account}
    → validate_transfer_account id currency w ≡ (ok a, w')
    → (find_row (account_is id) w.tables.accounts ≡ some a)
      × (a.currency ≡ currency)
      × (w'.tables ≡ w.tables)
unfolding validate_transfer_account
validate_transfer_account_found id currency w w' {a} h =
    let (b, v, got, h1) = after_or_else (get_account id) not_found_or_internal _ w w' h in
    let (same, done) = after_refuse_if (not (str_eq b.currency currency)) _ _ v w' h1 in
    let (found, kept) = get_account_found id w v got in
    on_return
      (λ x u.
        (find_row (account_is id) w.tables.accounts ≡ some x)
        × (x.currency ≡ currency)
        × (u.tables ≡ w.tables))
      done (found, same_text b.currency currency same, kept)

-- All that CreateTransfer checks, on the tables that it reads.
pub record Cleared (cents : ℤ) (ctx : Context) (req : CreateTransferRequest) (t : Tables)
    : Type 0 where
  pub valid : IsValid req
  pub caller : Payload
  pub authenticated : ctx.auth_payload ≡ some caller
  pub source : Account
  pub source_found : find_row (account_is req.from_account_id) t.accounts ≡ some source
  pub owner : source.owner ≡ caller.username
  pub source_currency : source.currency ≡ req.currency
  pub target : Account
  pub target_found : find_row (account_is req.to_account_id) t.accounts ≡ some target
  pub target_currency : target.currency ≡ req.currency
  pub covered : cents ≤ℤ source.balance

abbrev pub params : (cents : ℤ) → CreateTransferRequest → TransferTxParams
params cents req = record {
  from_account_id = req.from_account_id;
  to_account_id = req.to_account_id;
  amount = cents;
}

enough : (balance cents : ℤ) → ltb_ℤ balance cents ≡ false → cents ≤ℤ balance
enough balance cents h = ground arith

-- The amount of the request in cents.
abbrev pub requested : Server → CreateTransferRequest → ℤ
requested server req = float_to_cents server.out_of_range req.amount

module _ (server : Server) (ctx : Context) (req : CreateTransferRequest) where
  -- The checks of CreateTransfer let a call pass only if its fields are valid, its caller is
  -- authenticated and owns the source, both accounts are stored in the request's currency, and the
  -- source holds the amount; they hand on the request's ends with the amount in cents and have
  -- changed no table.
  pub check_transfer-Cleared :
      (w w' : World) {arg : TransferTxParams}
      → check_transfer server ctx req w ≡ (ok arg, w')
      → Cleared (requested server req) ctx req w.tables
        × (arg ≡ params (requested server req) req)
        × (w'.tables ≡ w.tables)
  unfolding check_transfer
  check_transfer-Cleared w w' h =
      let (vs, h1) = after_reject (validate_create_transfer_request req) _ w w' h in
      let (p, who, h2) = after_caller ctx _ w w' h1 in
      let (a, v1, got1, h3) =
        >>=-eq-ok (validate_transfer_account req.from_account_id req.currency) _ w w' h2 in
      let (mine, h4) = after_refuse_if (not (str_eq a.owner p.username)) _ _ v1 w' h3 in
      let (b, v2, got2, h5) =
        >>=-eq-ok (validate_transfer_account req.to_account_id req.currency) _ v1 w' h4 in
      let (covers, done) = after_refuse_if (ltb_ℤ a.balance (requested server req)) _ _ v2 w' h5 in
      let (found1, cur1, kept1) = validate_transfer_account_found _ _ w v1 got1 in
      let (found2, cur2, kept2) = validate_transfer_account_found _ _ v1 v2 got2 in
      let (same, left) = pure-eq-ok _ _ v2 w' done in
      (
        record {
          valid = validate_create_transfer_request-IsValid req vs;
          caller = p;
          authenticated = who;
          source = a;
          source_found = found1;
          owner = same_text a.owner p.username mine;
          source_currency = cur1;
          target = b;
          target_found =
              ap (λ t. find_row (account_is req.to_account_id) t.accounts) (sym kept1) ∙ found2;
          target_currency = cur2;
          covered = enough a.balance (requested server req) covers;
        },
        sym same,
        ap (λ u. u.tables) (sym left) ∙ kept2 ∙ kept1,
      )
