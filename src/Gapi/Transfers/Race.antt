-- ===== src/Gapi/Transfers/Race.antt =====
-- Two calls of CreateTransfer at once: each checks the funds before its transaction, outside it.
use go_bank.Common.{◌≡◌, ◌≢◌, ap, sym, ◌∙◌, some, some_eq}
use go_bank.Common.Int.{ℤ, pos, ◌+ℤ◌, ◌-ℤ◌, ◌<ℤ◌, min_int64, int_laws}
use go_bank.Common.Lists.{find_row}
use go_bank.Db.Models.{Account}
use go_bank.Db.World.{World, ok}
use go_bank.Db.Query.Page.{account_is}
use go_bank.Db.Tx.Transfer.{TransferTxParams}
use go_bank.Db.Tx.Transfer.Money.{transfer_tx-Shifted}
use go_bank.Gapi.Server.{Server, Context}
use go_bank.Gapi.Transfers.{
  CreateTransferRequest, CreateTransferResponse, check_transfer, commit_transfer,
}
use go_bank.Gapi.Transfers.Effect.{commit_transfer_ran}
use go_bank.Gapi.Guards.Transfers.{params, requested, check_transfer-Cleared}

both_taken : (b x y : ℤ) → b <ℤ x +ℤ y → b -ℤ x -ℤ y <ℤ pos 0
both_taken b x y h = omega int_laws

-- A committed transfer to another account leaves the source with what the amount leaves of it.
committed_debit :
    (arg : TransferTxParams) (v w : World) (a : Account) {rsp : CreateTransferResponse}
    → arg.from_account_id ≢ arg.to_account_id
    → arg.amount ≢ min_int64
    → commit_transfer arg v ≡ (ok rsp, w)
    → find_row (account_is arg.from_account_id) v.tables.accounts ≡ some a
    → find_row (account_is arg.from_account_id) w.tables.accounts
      ≡ some (record a { balance = a.balance -ℤ arg.amount })
committed_debit arg v w a apart exact h found =
    let (r, ran, _) = commit_transfer_ran arg v w h in
    let moved = transfer_tx-Shifted arg v w r apart exact ran in
    let same : moved.source ≡ a = some_eq (sym moved.had_source ∙ found) in
    moved.debited
    ∙ ap {A = Account} (λ x. some (record x { balance = x.balance -ℤ arg.amount })) same

-- Whenever two calls on one source account both pass their checks before either commits, and the source
-- holds less than the two amounts together, and both transactions then commit, the source is left
-- with a negative balance: the check of the funds does not protect against a concurrent transfer.
-- Neither amount in cents may be the least int64.
pub concurrent_overdraft :
    (server : Server) (ctx1 ctx2 : Context) (req1 req2 : CreateTransferRequest)
    (w v1 v2 w1 w2 : World) (arg1 arg2 : TransferTxParams) (rsp1 rsp2 : CreateTransferResponse)
    (source : Account)
    → check_transfer server ctx1 req1 w ≡ (ok arg1, v1)
    → check_transfer server ctx2 req2 v1 ≡ (ok arg2, v2)
    → commit_transfer arg1 v2 ≡ (ok rsp1, w1)
    → commit_transfer arg2 w1 ≡ (ok rsp2, w2)
    → req2.from_account_id ≡ req1.from_account_id
    → requested server req1 ≢ min_int64
    → requested server req2 ≢ min_int64
    → find_row (account_is req1.from_account_id) w.tables.accounts ≡ some source
    → source.balance <ℤ requested server req1 +ℤ requested server req2
    → (b : Account) × (find_row (account_is req1.from_account_id) w2.tables.accounts ≡ some b)
      × (b.balance <ℤ pos 0)
concurrent_overdraft server ctx1 ctx2 req1 req2 w v1 v2 w1 w2 arg1 arg2 rsp1 rsp2 source c1 c2 t1 t2
      from exact1 exact2 found short =
    let (clear1, same1, kept1) = check_transfer-Cleared server ctx1 req1 w v1 c1 in
    let (clear2, same2, kept2) = check_transfer-Cleared server ctx2 req2 v1 v2 c2 in
    let x = requested server req1 in
    let y = requested server req2 in
    let id = req1.from_account_id in
    let before = ap (λ t. find_row (account_is id) t.accounts) (kept2 ∙ kept1) ∙ found in
    let first =
      committed_debit (params x req1) v2 w1 source clear1.valid.distinct exact1
        (ap (λ arg. commit_transfer arg v2) (sym same1) ∙ t1) before in
    let between : Account = record source { balance = source.balance -ℤ x } in
    let second =
      committed_debit (params y req2) w1 w2 between clear2.valid.distinct exact2
        (ap (λ arg. commit_transfer arg w1) (sym same2) ∙ t2)
        (ap (λ i. find_row (account_is i) w1.tables.accounts) from ∙ first) in
    (
      record source { balance = source.balance -ℤ x -ℤ y },
      ap (λ i. find_row (account_is i) w2.tables.accounts) (sym from) ∙ second,
      both_taken source.balance x y short,
    )
