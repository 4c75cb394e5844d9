-- ===== src/Api/Transfers.antt =====
-- api/transfer.go. As in gapi, the checks come before the transaction, outside it.
pub mod Effect
use go_bank.Common.{Bool, ℕ, not, ◌&&◌, Option, String, str_eq}
use go_bank.Common.Int.{ℤ, pos, ltb_ℤ}
use go_bank.Util.Float.{Float64, float_to_cents}
use go_bank.Db.Json.{AccountJson, EntryJson, TransferJson, account_json, entry_json, transfer_json}
use go_bank.Db.Models.{Account}
use go_bank.Db.World.{pure, or_else, ◌>>=◌, ◌>>◌}
use go_bank.Db.Query.Accounts.{get_account}
use go_bank.Db.Tx.Transfer.{TransferTxParams, TransferTxResult, transfer_tx}
use go_bank.Api.Status.{Handler, bad_request, unauthorized, abort_if, not_found_or_500, any_500}
use go_bank.Api.Binding.{Validator, valid_currency, should_bind}
use go_bank.Api.Server.{Server, GinContext, must_get}

pub record TransferRequest : Type 0 where
  pub from_account_id : ℤ
  pub to_account_id : ℤ
  pub amount : Float64
  pub currency : String

unfoldable pub transfer_tags : Validator → TransferRequest → Bool
transfer_tags v req =
    (v.required_int req.from_account_id && v.min_int (pos 1) req.from_account_id)
    && (v.required_int req.to_account_id && v.min_int (pos 1) req.to_account_id)
    && (v.required_float req.amount && v.gt_zero req.amount)
    && (v.required_text req.currency && valid_currency req.currency)

-- The JSON of db.TransferTxResult.
pub record TransferTxResultJson : Type 0 where
  pub transfer : TransferJson
  pub from_account : AccountJson
  pub to_account : AccountJson
  pub from_entry : EntryJson
  pub to_entry : EntryJson

unfoldable pub result_json : TransferTxResult → TransferTxResultJson
result_json r = record {
  transfer = transfer_json r.transfer;
  from_account = account_json r.from_account;
  to_account = account_json r.to_account;
  from_entry = entry_json r.from_entry;
  to_entry = entry_json r.to_entry;
}

-- validAccount; validAccountCurrency calls it too.
unfoldable pub valid_account : (account_id : ℤ) (currency : String) → Handler Account
valid_account account_id currency = do
  account ← or_else (get_account account_id) not_found_or_500
  abort_if (not (str_eq account.currency currency)) bad_request
  pure account

-- The checks, and the arguments of the transaction.
unfoldable pub check_transfer :
    Server → GinContext → Option TransferRequest → Handler TransferTxParams
check_transfer server ctx body = do
  req ← should_bind body (transfer_tags server.libraries.validator)
  from_account ← valid_account req.from_account_id req.currency
  auth_payload ← must_get ctx
  abort_if (not (str_eq from_account.owner auth_payload.username)) unauthorized
  valid_account req.to_account_id req.currency
  abort_if (ltb_ℤ from_account.balance (float_to_cents server.libraries.out_of_range req.amount))
      bad_request
  pure (record {
    from_account_id = req.from_account_id;
    to_account_id = req.to_account_id;
    amount = float_to_cents server.libraries.out_of_range req.amount;
  })

unfoldable pub commit_transfer : TransferTxParams → Handler TransferTxResultJson
commit_transfer arg = do result ← or_else (transfer_tx arg) any_500; pure (result_json result)

unfoldable pub create_transfer :
    Server → GinContext → Option TransferRequest → Handler TransferTxResultJson
create_transfer server ctx body = do arg ← check_transfer server ctx body; commit_transfer arg
