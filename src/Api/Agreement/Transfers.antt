-- ===== src/Api/Agreement/Transfers.antt =====
-- createTransfer of api against CreateTransfer of gapi.
use go_bank.Common.{◌≡◌, ◌≢◌, false}
use go_bank.Util.Float.{is_nan}
use go_bank.Token.Payload.{Payload}
use go_bank.Db.Tx.Transfer.{TransferTxResult}
use go_bank.Gapi.Server as Grpc
use go_bank.Gapi.Transfers as Rpc
use go_bank.Gapi.Transfers.{CreateTransferResponse, convert_transfer_result}
use go_bank.Api.Server.{Server}
use go_bank.Api.Transfers.{TransferRequest, TransferTxResultJson, result_json}

-- Two answers about one transaction.
abbrev pub IsTransfer : TransferTxResultJson → CreateTransferResponse → Type 0
IsTransfer json rsp =
    (r : TransferTxResult) × (json ≡ result_json r) × (rsp ≡ convert_transfer_result r)

-- The two validate such requests alike.
pub record IsPlain (req : TransferRequest) : Type 0 where
  pub apart : req.from_account_id ≢ req.to_account_id
  pub number : is_nan req.amount ≡ false
