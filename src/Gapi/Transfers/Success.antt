-- ===== src/Gapi/Transfers/Success.antt =====
-- When CreateTransfer cannot fail.
use go_bank.Common.{◌≡◌, ap, sym, ◌∙◌, true, false, not, some, [], String, str_eq, eq_iff}
use go_bank.Common.Int.{ℤ, ◌+ℤ◌, ltb_ℤ, in_int64, neg_int64}
use go_bank.Common.Lists.{find_row}
use go_bank.Token.Payload.{Payload}
use go_bank.Db.Models.{Account}
use go_bank.Db.World.{World, ok, pure, exchange, bind_result, map_result}
use go_bank.Db.Query.Page.{account_is}
use go_bank.Db.Query.Accounts.{get_account}
use go_bank.Db.Tx.Transfer.{TransferTxParams}
use go_bank.Db.Tx.Transfer.Success.{Ready, transfer_tx-Runs}
use go_bank.Gapi.Server.{Server, Context}
use go_bank.Gapi.Accounts.{any_internal}
use go_bank.Gapi.Transfers.{
  CreateTransferRequest, CreateTransferResponse, convert_transfer_result,
  validate_create_transfer_request, validate_transfer_account, check_transfer, commit_transfer,
  create_transfer,
}
use go_bank.Gapi.Guards.Transfers.{params, requested, validate_create_transfer_request-IsValid}

same_passes : (s t : String) → s ≡ t → not (str_eq s t) ≡ false
same_passes s t e = rw ((eq_iff s t).1 e)

validate_transfer_account_passes :
    (id : ℤ) (currency : String) (w : World) (a : Account)
    → w.faults ≡ []
    → find_row (account_is id) w.tables.accounts ≡ some a
    → a.currency ≡ currency
    → validate_transfer_account id currency w ≡ (ok a, w)
unfolding validate_transfer_account get_account exchange
validate_transfer_account_passes id currency w a quiet found same =
    rw (quiet, found, same_passes a.currency currency same)

check_transfer_passes :
    (server : Server) (ctx : Context) (req : CreateTransferRequest) (w : World) (p : Payload)
    (source target : Account)
    → validate_create_transfer_request req ≡ []
    → ctx.auth_payload ≡ some p
    → find_row (account_is req.from_account_id) w.tables.accounts ≡ some source
    → find_row (account_is req.to_account_id) w.tables.accounts ≡ some target
    → source.owner ≡ p.username
    → source.currency ≡ req.currency
    → target.currency ≡ req.currency
    → ltb_ℤ source.balance (requested server req) ≡ false
    → w.faults ≡ []
    → check_transfer server ctx req w ≡ (ok (params (requested server req) req), w)
unfolding check_transfer
check_transfer_passes server ctx req w p source target valid auth from to owner cur1 cur2 covers
      quiet =
    rw (
      valid,
      auth,
      validate_transfer_account_passes req.from_account_id req.currency w source quiet from cur1,
      same_passes source.owner p.username owner,
      validate_transfer_account_passes req.to_account_id req.currency w target quiet to cur2,
      covers,
    )

commit_transfer_runs :
    (arg : TransferTxParams) (from to : Account) (w : World)
    → Ready arg from to w
    → (rsp : CreateTransferResponse) × (w' : World) × (commit_transfer arg w ≡ (ok rsp, w'))
unfolding commit_transfer
commit_transfer_runs arg from to w ready =
    let r = transfer_tx-Runs arg from to w ready in
    (
      convert_transfer_result r.value,
      r.final,
      ap
          (λ q.
            bind_result (λ x. pure (convert_transfer_result x)) (map_result any_internal q.0) q.1)
          r.ran,
    )

-- A request that passes the validation, by the owner of a source that covers the amount, with both
-- accounts in the request's currency and both new balances within 64 bits, is answered with
-- success when no statement meets a fault.
pub create_transfer_succeeds :
    (server : Server) (ctx : Context) (req : CreateTransferRequest) (w : World) (p : Payload)
    (source target : Account)
    → validate_create_transfer_request req ≡ []
    → ctx.auth_payload ≡ some p
    → find_row (account_is req.from_account_id) w.tables.accounts ≡ some source
    → find_row (account_is req.to_account_id) w.tables.accounts ≡ some target
    → source.owner ≡ p.username
    → source.currency ≡ req.currency
    → target.currency ≡ req.currency
    → ltb_ℤ source.balance (requested server req) ≡ false
    → in_int64 (source.balance +ℤ neg_int64 (requested server req)) ≡ true
    → in_int64 (target.balance +ℤ requested server req) ≡ true
    → w.faults ≡ []
    → (rsp : CreateTransferResponse) × (w' : World) × (create_transfer server ctx req w
        ≡ (ok rsp, w'))
unfolding create_transfer
create_transfer_succeeds server ctx req w p source target valid auth from to owner cur1 cur2 covers
      fits1 fits2 quiet =
    let arg = params (requested server req) req in
    let ready : Ready arg source target w = record {
      quiet = quiet;
      apart = λ e. (validate_create_transfer_request-IsValid req valid).distinct (sym e);
      from_found = from;
      to_found = to;
      from_fits = fits1;
      to_fits = fits2;
    } in
    let (rsp, w', ran) = commit_transfer_runs arg source target w ready in
    (rsp, w', ap (λ q. bind_result commit_transfer q.0 q.1) checked ∙ ran)
  where
    checked : check_transfer server ctx req w ≡ (ok (params (requested server req) req), w)
    checked =
        check_transfer_passes server ctx req w p source target valid auth from to owner cur1 cur2
          covers quiet
