-- ===== src/Gapi/Transfers/NotANumber.antt =====
-- CreateTransfer at an amount that is not a number.
use go_bank.Common.{◌≡◌, refl, ap, ◌∙◌, true, false, Bool, ◌&&◌, ◌==◌}
use go_bank.Common.Int.{ℤ, ◌+ℤ◌, min_int64}
use go_bank.Util.Float.{Float64, is_nan, exponent, float_to_cents}
use go_bank.Val.Validation.{fine, validate_amount}
use go_bank.Db.World.{World, ok}
use go_bank.Db.Query.Accounts.Credit.{total}
use go_bank.Db.Tx.Transfer.Money.{transfer_tx-total_least}
use go_bank.Gapi.Server.{Server, Context}
use go_bank.Gapi.Transfers.{CreateTransferRequest, CreateTransferResponse, create_transfer}
use go_bank.Gapi.Transfers.Effect.{create_transfer-Cleared}
use go_bank.Gapi.Guards.Transfers.{params, requested}

-- Every NaN passes the validation of amounts, since no comparison with it holds.
pub validate_amount_nan : (x : Float64) → is_nan x ≡ true → validate_amount x ≡ fine
unfolding validate_amount
validate_amount_nan x h = rw h

and_left : (a b : Bool) → (a && b) ≡ true → a ≡ true
and_left true b h = refl
and_left false b h = cc

float_to_cents_nan :
    (out_of_range : Float64 → ℤ) (x : Float64)
    → is_nan x ≡ true
    → float_to_cents out_of_range x ≡ out_of_range x
unfolding float_to_cents
float_to_cents_nan out_of_range x h = rw (and_left (exponent x == 2047) _ h)

-- Every NaN passes the validation of amounts. On a processor whose conversion of NaN is the least int64
-- (amd64), a call of CreateTransfer for a NaN that succeeds takes 2 ^ 64 cents out of the bank.
pub create_transfer_nan :
    (server : Server) (ctx : Context) (req : CreateTransferRequest) (w w' : World)
    {rsp : CreateTransferResponse}
    → is_nan req.amount ≡ true
    → server.out_of_range req.amount ≡ min_int64
    → create_transfer server ctx req w ≡ (ok rsp, w')
    → (validate_amount req.amount ≡ fine)
      × (total w'.tables.accounts ≡ total w.tables.accounts +ℤ min_int64 +ℤ min_int64)
create_transfer_nan server ctx req w w' nan least h =
    let (clear, v, r, kept, ran, _) = create_transfer-Cleared server ctx req w w' h in
    let amount = float_to_cents_nan server.out_of_range req.amount nan ∙ least in
    (
      validate_amount_nan req.amount nan,
      transfer_tx-total_least (params (requested server req) req) v w' r amount ran
          ∙ ap (λ t. total t.accounts +ℤ min_int64 +ℤ min_int64) kept,
    )
