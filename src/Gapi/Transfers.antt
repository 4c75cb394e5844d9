-- ===== src/Gapi/Transfers.antt =====
-- gapi/rpc_transfer.go. CreateTransfer reads both accounts outside the transaction that moves the money:
-- `check_transfer` is the part before it and `commit_transfer` the transaction and its answer.
pub mod Effect
pub mod Verdict
pub mod Ledger
pub mod Refinement
pub mod Race
pub mod Success
pub mod NotANumber
use go_bank.Common.{Bool, not, ◌&&◌, List, ◌++◌, String, ℕ, str_eq}
use go_bank.Common.Int.{ℤ, pos, ltb_ℤ, eq_ℤ}
use go_bank.Util.Float.{Float64, float_to_cents, cents_to_float}
use go_bank.Val.Validation.{error_if, validate_id, validate_amount, validate_currency}
use go_bank.Db.Models.{Account, Entry, Transfer}
use go_bank.Db.World.{pure, or_else, ◌>>=◌, ◌>>◌}
use go_bank.Db.Query.Accounts.{get_account}
use go_bank.Db.Tx.Transfer.{TransferTxParams, TransferTxResult, transfer_tx}
use go_bank.Gapi.Status.{
  Rpc, invalid_argument, failed_precondition, permission_denied, field_violation, reject, refuse_if,
}
use go_bank.Gapi.Server.{Server, Context, caller}
use go_bank.Gapi.Accounts.{not_found_or_internal, any_internal}

pub record CreateTransferRequest : Type 0 where
  pub from_account_id : ℤ
  pub to_account_id : ℤ
  pub amount : Float64
  pub currency : String

pub record TransferRecord : Type 0 where
  pub id : ℤ
  pub from_account_id : ℤ
  pub to_account_id : ℤ
  pub amount : Float64
  pub created_at : ℕ

pub record TransferEntry : Type 0 where
  pub id : ℤ
  pub account_id : ℤ
  pub amount : Float64
  pub created_at : ℕ

pub record AccountSnapshot : Type 0 where
  pub id : ℤ
  pub owner : String
  pub balance : Float64
  pub currency : String

pub record CreateTransferResponse : Type 0 where
  pub transfer : TransferRecord
  pub from_entry : TransferEntry
  pub to_entry : TransferEntry
  pub from_account : AccountSnapshot
  pub to_account : AccountSnapshot

abbrev convert_entry : Entry → TransferEntry
convert_entry e = record {
  id = e.id;
  account_id = e.account_id;
  amount = cents_to_float e.amount;
  created_at = e.created_at;
}

abbrev snapshot : Account → AccountSnapshot
snapshot a = record {
  id = a.id;
  owner = a.owner;
  balance = cents_to_float a.balance;
  currency = a.currency;
}

unfoldable pub convert_transfer_result : TransferTxResult → CreateTransferResponse
convert_transfer_result r = record {
  transfer = record {
    id = r.transfer.id;
    from_account_id = r.transfer.from_account_id;
    to_account_id = r.transfer.to_account_id;
    amount = cents_to_float r.transfer.amount;
    created_at = r.transfer.created_at;
  };
  from_entry = convert_entry r.from_entry;
  to_entry = convert_entry r.to_entry;
  from_account = snapshot r.from_account;
  to_account = snapshot r.to_account;
}

unfoldable pub validate_create_transfer_request : CreateTransferRequest → List String
validate_create_transfer_request req =
    field_violation "from_account_id" (validate_id req.from_account_id)
    ++ (field_violation "to_account_id" (validate_id req.to_account_id)
        ++ (field_violation "amount" (validate_amount req.amount)
            ++ (field_violation "currency" (validate_currency req.currency)
                ++ field_violation "to_account_id" (
                    error_if (
                      ltb_ℤ (pos 0) req.from_account_id
                      && eq_ℤ req.from_account_id req.to_account_id)))))

unfoldable pub validate_transfer_account : (account_id : ℤ) (currency : String) → Rpc Account
validate_transfer_account account_id currency = do
  account ← or_else (get_account account_id) not_found_or_internal
  refuse_if (not (str_eq account.currency currency)) invalid_argument
  pure account

-- The guards, and the arguments of the transaction.
unfoldable pub check_transfer : Server → Context → CreateTransferRequest → Rpc TransferTxParams
check_transfer server ctx req = do
  reject (validate_create_transfer_request req)
  auth_payload ← caller ctx
  from_account ← validate_transfer_account req.from_account_id req.currency
  refuse_if (not (str_eq from_account.owner auth_payload.username)) permission_denied
  validate_transfer_account req.to_account_id req.currency
  refuse_if (ltb_ℤ from_account.balance (float_to_cents server.out_of_range req.amount))
      failed_precondition
  pure (record {
    from_account_id = req.from_account_id;
    to_account_id = req.to_account_id;
    amount = float_to_cents server.out_of_range req.amount;
  })

unfoldable pub commit_transfer : TransferTxParams → Rpc CreateTransferResponse
commit_transfer arg = do
  result ← or_else (transfer_tx arg) any_internal
  pure (convert_transfer_result result)

unfoldable pub create_transfer :
    Server → Context → CreateTransferRequest → Rpc CreateTransferResponse
create_transfer server ctx req = do arg ← check_transfer server ctx req; commit_transfer arg
