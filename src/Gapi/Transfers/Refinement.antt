-- ===== src/Gapi/Transfers/Refinement.antt =====
-- The bank as its clients see it, an amount for each account, and sequences of calls of CreateTransfer
-- against it.
use go_bank.Common.{
  ◌≡◌, ◌≢◌, refl, ap, sym, ◌∙◌, Option, none, some, List, [], ◌∷◌, Bool-cases, inl, inr,
  if◌then◌else◌,
}
use go_bank.Common.Int.{ℤ, ◌+ℤ◌, ◌-ℤ◌, eq_ℤ, eq_ℤ-iff, eq_ℤ-apart, min_int64}
use go_bank.Common.Lists.{find_row}
use go_bank.Db.Models.{Account}
use go_bank.Db.World.{World, Tables, Result, ok, err}
use go_bank.Db.Query.Page.{account_is}
use go_bank.Db.Tx.Transfer.{TransferTxParams}
use go_bank.Db.Tx.Transfer.Money.{Shifted}
use go_bank.Gapi.Status.{Status}
use go_bank.Gapi.Server.{Server, Context}
use go_bank.Gapi.Transfers.{CreateTransferRequest, CreateTransferResponse, create_transfer}
use go_bank.Gapi.Transfers.Effect.{create_transfer-Shifted}
use go_bank.Gapi.Guards.Transfers.{params, requested}
use go_bank.Gapi.Effects.{create_transfer-IsAtomic}

-- The abstract bank: the balance of each account that there is.
abbrev pub Balances : Type 0
Balances = ℤ → Option ℤ

abbrev pub balance_of : Option Account → Option ℤ
balance_of none = none
balance_of (some a) = some a.balance

abbrev pub balances : Tables → Balances
balances t id = balance_of (find_row (account_is id) t.accounts)

abbrev pub less : ℤ → Option ℤ → Option ℤ
less amount none = none
less amount (some b) = some (b -ℤ amount)

abbrev pub more : ℤ → Option ℤ → Option ℤ
more amount none = none
more amount (some b) = some (b +ℤ amount)

-- The abstract transfer.
abbrev pub moved : TransferTxParams → Balances → Balances
moved arg b id =
    if eq_ℤ id arg.from_account_id
    then less arg.amount (b id)
    else if eq_ℤ id arg.to_account_id
    then more arg.amount (b id)
    else b id

abbrev pub moved_all : List TransferTxParams → Balances → Balances
moved_all [] b = b
moved_all (arg ∷ log) b = moved_all log (moved arg b)

pub record Call : Type 0 where
  pub ctx : Context
  pub req : CreateTransferRequest

abbrev pub logged :
    Result Status CreateTransferResponse
    → TransferTxParams
    → List TransferTxParams
    → List TransferTxParams
logged (ok rsp) arg log = arg ∷ log
logged (err e) arg log = log

-- Calls one after the other, whether they succeed or fail, and the transfers of those that succeed.
unfoldable pub run : Server → List Call → World → World × List TransferTxParams
run server [] w = (w, [])
run server (c ∷ calls) w =
    let (r, v) = create_transfer server c.ctx c.req w in
    let (v', log) = run server calls v in (v', logged r (params (requested server c.req) c.req) log)

-- No amount in cents is the least int64.
abbrev pub AreExact : Server → List Call → Type 0
AreExact server [] = Unit {0}
AreExact server (c ∷ calls) = (requested server c.req ≢ min_int64) × AreExact server calls

module _ (arg : TransferTxParams) (t t' : Tables) (s : Shifted arg t.accounts t'.accounts) where
  at_source : (id : ℤ) → id ≡ arg.from_account_id → balances t' id ≡ less arg.amount (balances t id)
  at_source id e =
      ap (balances t') e
      ∙ ap balance_of s.debited
      ∙ ap (λ o. less arg.amount (balance_of o)) (sym s.had_source)
      ∙ ap (λ x. less arg.amount (balances t x)) (sym e)

  at_target : (id : ℤ) → id ≡ arg.to_account_id → balances t' id ≡ more arg.amount (balances t id)
  at_target id e =
      ap (balances t') e
      ∙ ap balance_of s.credited
      ∙ ap (λ o. more arg.amount (balance_of o)) (sym s.had_target)
      ∙ ap (λ x. more arg.amount (balances t x)) (sym e)

  pub Shifted-moved : balances t' ≡ moved arg (balances t)
  Shifted-moved = λ i id. at id i
    where
      at : (id : ℤ) → balances t' id ≡ moved arg (balances t) id
      at id = elim (Bool-cases (eq_ℤ id arg.from_account_id)) [
        | inl from ↦ rw from (at_source id ((eq_ℤ-iff id arg.from_account_id).0 from))
        | inr n ↦ elim (Bool-cases (eq_ℤ id arg.to_account_id)) [
          | inl to ↦ rw (n, to) (at_target id ((eq_ℤ-iff id arg.to_account_id).0 to))
          | inr m ↦
              rw (n, m)
                (elim (s.others id) [
                  | inl e ↦ absurd (eq_ℤ-apart id arg.from_account_id n e)
                  | inr (inl e) ↦ absurd (eq_ℤ-apart id arg.to_account_id m e)
                  | inr (inr e) ↦ ap balance_of e
                ])
        ]
      ]

step :
    (server : Server) (c : Call) (w : World)
    → requested server c.req ≢ min_int64
    → (r : Result Status CreateTransferResponse) (v : World) (log : List TransferTxParams)
    → create_transfer server c.ctx c.req w ≡ (r, v)
    → moved_all log (balances v.tables)
      ≡ moved_all (logged r (params (requested server c.req) c.req) log) (balances w.tables)
step server c w exact (ok rsp) v log e =
    ap (moved_all log)
      (Shifted-moved _ w.tables v.tables (create_transfer-Shifted server c.ctx c.req w v exact e).1)
step server c w exact (err x) v log e =
    ap (λ t. moved_all log (balances t))
      ((create_transfer-IsAtomic server c.ctx c.req).undone w v x e)

-- A sequence of calls of CreateTransfer refines the abstract bank: whatever each call requests, whoever makes it and
-- whichever exchanges are lost, the balances that are left are those that the transfers of the calls
-- that succeeded, in their order, make of the balances before. No amount may be the least int64 in
-- cents.
pub run-moved_all :
    (server : Server) (calls : List Call) (w : World)
    → AreExact server calls
    → balances (run server calls w).0.tables ≡ moved_all (run server calls w).1 (balances w.tables)
unfolding run
run-moved_all server [] w exact = refl
run-moved_all server (c ∷ calls) w (one, more_exact) =
    let (r, v) = create_transfer server c.ctx c.req w in
    run-moved_all server calls v more_exact ∙ step server c w one r v (run server calls v).1 refl
