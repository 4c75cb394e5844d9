-- ===== src/Process/Rpc/Balance.antt =====
-- The double-entry books under every sequence of calls to the gRPC server. A call comes at a time of the clock,
-- and finds the world that the calls before it have left.
use go_bank.Common.{◌≡◌, ◌≢◌, refl, sym, false, ◌⊎◌, inl, inr, Option, none, some, List, [], ◌∷◌, ℕ}
use mathlib.Core.Path.{subst}
use go_bank.Common.Int.{min_int64}
use go_bank.Db.World.{World, Result, ok, err, bind_result, pure}
use go_bank.Gapi.Status.{Status}
use go_bank.Gapi.Server.{Server, Context}
use go_bank.Gapi.Transfers.{CreateTransferRequest, CreateTransferResponse, create_transfer}
use go_bank.Gapi.Transfers.Effect.{create_transfer-Cleared}
use go_bank.Gapi.Guards.Transfers.{params, requested}
use go_bank.Gapi.Effects.{create_transfer-IsAtomic}
use go_bank.Db.Tx.Transfer.Books.{transfer_tx-Booked}
use go_bank.Logger.Core.{Logger, Package}
use go_bank.Logger.Grpc.{Views, Logged}
use go_bank.Process.Rpc.{Call, Reply, transferred, create_transfer_call, run_call, serve_call}
use go_bank.Process.Rpc.Access.{Outcome, serve_call_cases}
use go_bank.Process.Rpc.Books.{is_transfer, run_call-Leaves, IsBalanced, Booked-IsBalanced}

pub record Arrival : Type 0 where
  pub time : ℕ
  pub ctx : Context
  pub call : Call

-- A panic of a handler is not modelled: the log is what can panic, and serve_call_cases excludes it.
abbrev pub left_by : World → Option (Logged Reply) → World
left_by w none = w
left_by w (some out) = out.world

module _ (p : Package) (l : Logger) (views : Views Reply) (server : Server) where
  abbrev pub after_call : Arrival → World → World
  after_call a w =
      left_by w (serve_call p l views server a.call a.ctx (record w { clock = a.time }))

  -- The world after a sequence of calls.
  unfoldable pub serve_calls : List Arrival → World → World
  serve_calls [] w = w
  serve_calls (a ∷ rest) w = serve_calls rest (after_call a w)

-- The amount of a call of CreateTransfer in cents is not the least int64.
abbrev pub IsExact : Server → Call → Type 0
IsExact server (create_transfer_call req) = requested server req ≢ min_int64
IsExact server _ = Unit {0}

abbrev pub AreExact : Server → List Arrival → Type 0
AreExact server [] = Unit {0}
AreExact server (a ∷ rest) = IsExact server a.call × AreExact server rest

create_transfer-IsBalanced :
    (server : Server) (ctx : Context) (req : CreateTransferRequest) (w : World)
    → requested server req ≢ min_int64
    → IsBalanced w.tables.entries
    → (r : Result Status CreateTransferResponse) (v : World)
    → create_transfer server ctx req w ≡ (r, v)
    → IsBalanced (bind_result (λ x. pure (transferred x)) r v).1.tables.entries
create_transfer-IsBalanced server ctx req w exact before (ok rsp) v e =
    let (clear, u, r, same, ran, _) = create_transfer-Cleared server ctx req w v e in
    let arg = params (requested server req) req in
    Booked-IsBalanced arg r u.tables v.tables (transfer_tx-Booked arg u v r exact ran)
      (subst (λ t. IsBalanced t.entries) (sym same) before)
create_transfer-IsBalanced server ctx req w exact before (err x) v e =
    subst (λ t. IsBalanced t.entries)
      (sym ((create_transfer-IsAtomic server ctx req).undone w v x e)) before

by_kind :
    (server : Server) (call : Call)
    → IsExact server call
    → (is_transfer call ≡ false)
      ⊎ (req : CreateTransferRequest) × (call ≡ create_transfer_call req)
        × (requested server req ≢ min_int64)
by_kind server (create_transfer_call req) exact = inr (req, refl, exact)
by_kind server _ exact = inl refl

run_call-IsBalanced :
    (server : Server) (call : Call) (ctx : Context) (w : World)
    → IsExact server call
    → IsBalanced w.tables.entries
    → IsBalanced (run_call server call ctx w).1.tables.entries
unfolding run_call
run_call-IsBalanced server call ctx w exact before = elim (by_kind server call exact) [
  | inl other ↦ subst IsBalanced (sym ((run_call-Leaves server call ctx other).left w)) before
  | inr (req, is, small) ↦
      subst (λ c. IsBalanced (run_call server c ctx w).1.tables.entries) (sym is)
        (create_transfer-IsBalanced server ctx req w small before
          (create_transfer server ctx req w).0 (create_transfer server ctx req w).1 refl)
]

Outcome-IsBalanced :
    (server : Server) (call : Call) (ctx inner : Context) (w : World)
    (out : Result Status Reply × World)
    → IsExact server call
    → IsBalanced w.tables.entries
    → Outcome server call ctx inner w out
    → IsBalanced out.1.tables.entries
Outcome-IsBalanced server call ctx inner w out exact before (inl (_, e)) =
    subst (λ o. IsBalanced o.1.tables.entries) (sym e)
      (run_call-IsBalanced server call inner w exact before)
Outcome-IsBalanced server call ctx inner w out exact before (inr (inl (_, e))) =
    subst (λ o. IsBalanced o.1.tables.entries) (sym e) before
Outcome-IsBalanced server call ctx inner w out exact before (inr (inr (_, q, _, e))) =
    subst (λ o. IsBalanced o.1.tables.entries) (sym e)
      (run_call-IsBalanced server call (record inner { auth_payload = some q }) w exact before)

-- From books in which the entries of every transfer cancel, the entries of every transfer cancel after any
-- sequence of calls to the gRPC server: of any of its methods, by anyone, with any token or none, at any
-- times, whether they succeed, are refused or fail, and whichever exchanges with the database are
-- lost. The amount of no call of CreateTransfer may be the least int64 in cents.
pub serve_calls-IsBalanced :
    (p : Package) (l : Logger) (views : Views Reply) (server : Server) (arrivals : List Arrival)
    (w : World)
    → AreExact server arrivals
    → IsBalanced w.tables.entries
    → IsBalanced (serve_calls p l views server arrivals w).tables.entries
unfolding serve_calls
serve_calls-IsBalanced p l views server [] w exact before = before
serve_calls-IsBalanced p l views server (a ∷ rest) w (one, others) before =
    let u = record w { clock = a.time } in
    let (inner, out, ran, _, outcome, _, _, _) = serve_call_cases p l views server a.call a.ctx u in
    serve_calls-IsBalanced p l views server rest
      (left_by w (serve_call p l views server a.call a.ctx u)) others
      (subst (λ o. IsBalanced (left_by w o).tables.entries) (sym ran)
        (Outcome-IsBalanced server a.call a.ctx inner u (out.result, out.world) one before outcome))
