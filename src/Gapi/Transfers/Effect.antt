-- ===== src/Gapi/Transfers/Effect.antt =====
-- What CreateTransfer does from end to end, alone and beside another call.
use go_bank.Common.{◌≡◌, ◌≢◌, refl, ap, sym, ◌∙◌, some, some_eq}
use mathlib.Core.Path.{subst}
use go_bank.Common.Int.{ℤ, pos, ◌-ℤ◌, ◌≤ℤ◌, min_int64, int_laws}
use go_bank.Common.Lists.{find_row}
use go_bank.Db.Models.{Account}
use go_bank.Db.World.{World, ok, >>=-eq-ok, on_return}
use go_bank.Db.Query.Page.{account_is}
use go_bank.Db.Query.Accounts.Credit.{total}
use go_bank.Db.Tx.Transfer.{TransferTxParams, transfer_tx, TransferTxResult}
use go_bank.Db.Tx.Transfer.Money.{Shifted, transfer_tx-Shifted, transfer_tx-total}
use go_bank.Gapi.Server.{Server, Context}
use go_bank.Gapi.Accounts.{any_internal}
use go_bank.Gapi.Transfers.{
  CreateTransferRequest, CreateTransferResponse, convert_transfer_result, check_transfer,
  commit_transfer, create_transfer,
}
use go_bank.Gapi.Guards.{after_or_else}
use go_bank.Gapi.Guards.Transfers.{Cleared, params, requested, check_transfer-Cleared}

pub commit_transfer_ran :
    (arg : TransferTxParams) (w w' : World) {rsp : CreateTransferResponse}
    → commit_transfer arg w ≡ (ok rsp, w')
    → (r : TransferTxResult) × (transfer_tx arg w ≡ (ok r, w')) × (rsp ≡ convert_transfer_result r)
unfolding commit_transfer
commit_transfer_ran arg w w' {rsp} h =
    let (r, v, ran, done) = after_or_else (transfer_tx arg) any_internal _ w w' h in
    on_return
      (λ x u.
        (r : TransferTxResult) × (transfer_tx arg w ≡ (ok r, u)) × (x ≡ convert_transfer_result r))
      done (r, ran, refl)

-- A call of CreateTransfer that succeeds has passed every check on the tables that it met, and has then
-- run the transaction on them.
pub create_transfer-Cleared :
    (server : Server) (ctx : Context) (req : CreateTransferRequest) (w w' : World)
    {rsp : CreateTransferResponse}
    → create_transfer server ctx req w ≡ (ok rsp, w')
    → Cleared (requested server req) ctx req w.tables
      × (v : World) × (r : TransferTxResult) × (v.tables ≡ w.tables)
      × (transfer_tx (params (requested server req) req) v ≡ (ok r, w'))
      × (rsp ≡ convert_transfer_result r)
unfolding create_transfer
create_transfer-Cleared server ctx req w w' {rsp} h =
    let (arg, v, checked, h1) = >>=-eq-ok (check_transfer server ctx req) commit_transfer w w' h in
    let (clear, same, kept) = check_transfer-Cleared server ctx req w v checked in
    let ran : commit_transfer (params (requested server req) req) v ≡ (ok rsp, w') =
      ap (λ x. commit_transfer x v) (sym same) ∙ h1 in
    let (r, committed, answer) = commit_transfer_ran _ v w' ran in
    (clear, v, r, kept, committed, answer)

-- With the funds checked against the tables that the transaction then runs on, the source is left
-- with what the amount leaves of it, which is not negative.
covered_balance : (b c : ℤ) → c ≤ℤ b → pos 0 ≤ℤ b -ℤ c
covered_balance b c h = omega int_laws

-- A call of CreateTransfer that succeeds, with no other call between its checks and its transaction: the
-- caller owns the source, the amount moves from the source to the target and no other account
-- changes, the money in the bank is conserved, and the source is not overdrawn. The amount in
-- cents must not be the least int64.
pub create_transfer-Shifted :
    (server : Server) (ctx : Context) (req : CreateTransferRequest) (w w' : World)
    {rsp : CreateTransferResponse}
    → requested server req ≢ min_int64
    → create_transfer server ctx req w ≡ (ok rsp, w')
    → Cleared (requested server req) ctx req w.tables
      × Shifted (params (requested server req) req) w.tables.accounts w'.tables.accounts
      × (total w'.tables.accounts ≡ total w.tables.accounts)
      × (b : Account) × (find_row (account_is req.from_account_id) w'.tables.accounts ≡ some b)
      × (pos 0 ≤ℤ b.balance)
create_transfer-Shifted server ctx req w w' exact h =
    let (clear, v, r, kept, ran, _) = create_transfer-Cleared server ctx req w w' h in
    let arg = params (requested server req) req in
    let moved = transfer_tx-Shifted arg v w' r clear.valid.distinct exact ran in
    let before = ap (λ t. find_row (account_is req.from_account_id) t.accounts) (sym kept) in
    let same = some_eq (sym clear.source_found ∙ before ∙ moved.had_source) in
    (
      clear,
      subst (λ t. Shifted arg t.accounts w'.tables.accounts) kept moved,
      transfer_tx-total arg v w' r exact ran ∙ ap (λ t. total t.accounts) kept,
      record (moved.source) { balance = moved.source.balance -ℤ requested server req },
      moved.debited,
      covered_balance moved.source.balance (requested server req)
          (subst (λ a. requested server req ≤ℤ a.balance) same clear.covered),
    )
