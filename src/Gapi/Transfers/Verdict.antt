-- ===== src/Gapi/Transfers/Verdict.antt =====
-- A table of the reasons for which CreateTransfer refuses a request, in their order.
use go_bank.Common.{
  ◌≡◌, Bool, true, false, not, Option, none, some, List, [], ◌∷◌, String, str_eq, if◌then◌else◌,
}
use go_bank.Common.Int.{ltb_ℤ}
use go_bank.Common.Lists.{find_row}
use go_bank.Token.Payload.{Payload}
use go_bank.Db.Models.{Account}
use go_bank.Db.World.{World, Tables, Result, ok, err}
use go_bank.Db.Query.Page.{account_is}
use go_bank.Db.Tx.Transfer.{TransferTxParams}
use go_bank.Gapi.Status.{
  Status, status, invalid_fields, unauthenticated, not_found, invalid_argument, permission_denied,
  failed_precondition,
}
use go_bank.Gapi.Server.{Server, Context}
use go_bank.Gapi.Transfers.{CreateTransferRequest, validate_create_transfer_request}
use go_bank.Gapi.Guards.Transfers.{params, requested}

abbrev is_missing {ℓ} : {A : Type ℓ} → Option A → Bool
is_missing none = true
is_missing (some a) = false

-- A test of a row that is there.
abbrev row_is : (Account → Bool) → Option Account → Bool
row_is test none = false
row_is test (some a) = test a

abbrev is_not_owner : Option Account → Option Payload → Bool
is_not_owner (some a) (some p) = not (str_eq a.owner p.username)
is_not_owner _ _ = false

abbrev is_nonempty : List String → Bool
is_nonempty [] = false
is_nonempty (v ∷ vs) = true

abbrev other_currency : String → Account → Bool
other_currency currency a = not (str_eq a.currency currency)

-- Each reason with the status that it is answered with.
abbrev pub reasons : Server → Context → CreateTransferRequest → Tables → List (Bool × Status)
reasons server ctx req t =
    let violations = validate_create_transfer_request req in
    let source = find_row (account_is req.from_account_id) t.accounts in
    let target = find_row (account_is req.to_account_id) t.accounts in
    (is_nonempty violations, invalid_fields violations)
    ∷ (is_missing ctx.auth_payload, status unauthenticated)
    ∷ (is_missing source, status not_found)
    ∷ (row_is (other_currency req.currency) source, status invalid_argument)
    ∷ (is_not_owner source ctx.auth_payload, status permission_denied)
    ∷ (is_missing target, status not_found)
    ∷ (row_is (other_currency req.currency) target, status invalid_argument)
    ∷ (row_is (λ a. ltb_ℤ a.balance (requested server req)) source, status failed_precondition)
    ∷ []

-- The first reason that holds decides.
abbrev pub verdict : List (Bool × Status) → TransferTxParams → Result Status TransferTxParams
verdict [] arg = ok arg
verdict ((holds, s) ∷ more) arg = if holds then err s else verdict more arg

account_verdict : (currency : String) → Option Account → Result Status Account
account_verdict currency none = err (status not_found)
account_verdict currency (some a) =
    if not (str_eq a.currency currency) then err (status invalid_argument) else ok a

module _ (server : Server) (ctx : Context) (req : CreateTransferRequest) (w : World)
    (quiet : w.faults ≡ []) where
  -- The answer of the checks.
  abbrev answer : Result Status TransferTxParams × World
  answer = (verdict (reasons server ctx req w.tables) (params (requested server req) req), w)
