-- ===== src/Process/Rpc/Custody.antt =====
-- What the calls to the gRPC server can take from an account without its owner's token.
use go_bank.Common.{
  ◌≡◌, refl, ap, sym, ◌∙◌, true, false, ◌⊎◌, inl, inr, some, some_eq, List, [], ◌∷◌, String, arith,
}
use mathlib.Core.Path.{subst}
use go_bank.Common.Int.{ℤ, pos, ◌≤ℤ◌}
use go_bank.Common.Lists.{find_row}
use go_bank.Token.Payload.{Payload}
use go_bank.Db.Models.{Account}
use go_bank.Db.World.{World, Tables, Result, ok, err, bind_result, pure}
use go_bank.Db.Query.Page.{account_is}
use go_bank.Gapi.Status.{Status}
use go_bank.Gapi.Server.{Server, Context}
use go_bank.Gapi.Accounts.{create_account, update_account, delete_account}
use go_bank.Gapi.Transfers.{create_transfer}
use go_bank.Gapi.Guards.Transfers.{requested}
use go_bank.Gapi.Interceptor.Access.{Carries}
use go_bank.Gapi.Custody.{
  Kept, Guarded, still_there, create_transfer-Guarded, create_account-Guarded,
  delete_account-Guarded, update_account-Guarded,
}
use go_bank.Logger.Core.{Logger, Package}
use go_bank.Logger.Grpc.{Views}
use go_bank.Process.Rpc.{
  Call, Reply, create_user_call, create_account_call, update_account_call, delete_account_call,
  create_transfer_call, run_call,
}
use go_bank.Process.Rpc.Access.{is_public, Outcome, serve_call_cases}
use go_bank.Process.Rpc.Books.{is_on_ledger, run_call-LeavesLedger}
use go_bank.Process.Rpc.Balance.{Arrival, left_by, after_call, serve_calls}

-- The amount of a call of CreateTransfer in cents is not negative.
abbrev pub IsUpward : Server → Call → Type 0
IsUpward server (create_transfer_call req) = pos 0 ≤ℤ requested server req
IsUpward server _ = Unit {0}

abbrev pub AreUpward : Server → List Arrival → Type 0
AreUpward server [] = Unit {0}
AreUpward server (a ∷ rest) = IsUpward server a.call × AreUpward server rest

public_off_ledger : (call : Call) → is_public call ≡ true → is_on_ledger call ≡ false
public_off_ledger (create_user_call req) h = refl
public_off_ledger (create_account_call currency) h = cc
public_off_ledger (update_account_call id balance) h = cc
public_off_ledger (delete_account_call id) h = cc
public_off_ledger (create_transfer_call req) h = cc
public_off_ledger _ h = refl

converted_world :
    {A B : Type 0} (g : A → B) (r : Result Status A) (v : World)
    → v ≡ (bind_result (λ x. pure (g x)) r v).1
converted_world g (ok a) v = refl
converted_world g (err e) v = refl

module _ (server : Server) (id : ℤ) (a : Account) (w : World)
    (stored : find_row (account_is id) w.tables.accounts ≡ some a) where
  ledger_same :
      (call : Call) (ctx : Context)
      → is_on_ledger call ≡ false
      → Kept id a (run_call server call ctx w).1.tables
  ledger_same call ctx off =
      let same = (run_call-LeavesLedger server call ctx off).left w in
      still_there id a (run_call server call ctx w).1.tables
        (ap (λ x. find_row (account_is id) x.0) same ∙ stored)

  run_call-Guarded :
      (call : Call) (ctx : Context)
      → IsUpward server call
      → Guarded ctx id a (run_call server call ctx w).1.tables
  unfolding run_call
  run_call-Guarded (create_transfer_call req) ctx up =
      let (r, v) = create_transfer server ctx req w in
      subst (λ u. Guarded ctx id a u.tables) (converted_world _ r v)
        (create_transfer-Guarded server ctx id a w stored req up r v refl)
  run_call-Guarded (create_account_call currency) ctx up =
      let (r, v) = create_account ctx currency w in
      subst (λ u. Guarded ctx id a u.tables) (converted_world _ r v)
        (create_account-Guarded server ctx id a w stored currency r v refl)
  run_call-Guarded (update_account_call i balance) ctx up =
      let (r, v) = update_account server ctx i balance w in
      subst (λ u. Guarded ctx id a u.tables) (converted_world _ r v)
        (update_account-Guarded server ctx id a w stored i balance r v refl)
  run_call-Guarded (delete_account_call i) ctx up =
      let (r, v) = delete_account ctx i w in
      subst (λ u. Guarded ctx id a u.tables) (converted_world _ r v)
        (delete_account-Guarded server ctx id a w stored i r v refl)
  run_call-Guarded call ctx up = inl (ledger_same call ctx refl)

  -- What one call comes to for the account.
  Outcome-Guarded :
      (call : Call) (ctx inner : Context) (out : Result Status Reply × World)
      → IsUpward server call
      → Outcome server call ctx inner w out
      → Kept id a out.1.tables ⊎ (q : Payload) × Carries server ctx q w × (q.username ≡ a.owner)
  Outcome-Guarded call ctx inner out up (inl (free, e)) = inl (
      subst (λ o. Kept id a o.1.tables) (sym e)
        (ledger_same call inner (public_off_ledger call free)))
  Outcome-Guarded call ctx inner out up (inr (inl (_, e))) =
      inl (subst (λ o. Kept id a o.1.tables) (sym e) (still_there id a w.tables stored))
  Outcome-Guarded call ctx inner out up (inr (inr (_, q, carries, e))) =
      elim (run_call-Guarded call (record inner { auth_payload = some q }) up) [
        | inl kept ↦ inl (subst (λ o. Kept id a o.1.tables) (sym e) kept)
        | inr (p, is, owner) ↦ inr (q, carries, ap (λ x. x.username) (some_eq is) ∙ owner)
      ]

Kept-trans :
    (id : ℤ) (a b : Account) (t : Tables)
    → b.owner ≡ a.owner
    → b.currency ≡ a.currency
    → a.balance ≤ℤ b.balance
    → Kept id b t
    → Kept id a t
Kept-trans id a b t owner currency up k = record {
  row = k.row;
  found = k.found;
  owner = k.owner ∙ owner;
  currency = k.currency ∙ currency;
  balance = let more = k.balance in omega arith;
}

module _ (p : Package) (l : Logger) (views : Views Reply) (server : Server) where
  -- Some call of the sequence carries a token of the user that the maker verifies at its time.
  abbrev pub Acts : String → List Arrival → World → Type 0
  Acts user [] w = ⊥
  Acts user (a ∷ rest) w =
      ((q : Payload) × Carries server a.ctx q (record w { clock = a.time }) × (q.username ≡ user))
      ⊎ Acts user rest (after_call p l views server a w)

  call-Guarded :
      (id : ℤ) (b : Account) (a : Arrival) (w : World)
      → IsUpward server a.call
      → find_row (account_is id) w.tables.accounts ≡ some b
      → Kept id b (after_call p l views server a w).tables
        ⊎ (q : Payload) × Carries server a.ctx q (record w { clock = a.time })
          × (q.username ≡ b.owner)
  call-Guarded id b a w up stored =
      let u = record w { clock = a.time } in
      let (inner, out, ran, _, outcome, _, _, _) =
        serve_call_cases p l views server a.call a.ctx u in
      elim (Outcome-Guarded server id b u stored a.call a.ctx inner (out.result, out.world) up
        outcome) [
          | inl kept ↦ inl (subst (λ o. Kept id b (left_by w o).tables) (sym ran) kept)
          | inr acts ↦ inr acts
        ]

  serve_calls_cases :
      (id : ℤ) (a : Account) (arrivals : List Arrival) (w : World)
      → AreUpward server arrivals
      → Kept id a w.tables
      → Kept id a (serve_calls p l views server arrivals w).tables ⊎ Acts a.owner arrivals w
  unfolding serve_calls
  serve_calls_cases id a [] w up before = inl before
  serve_calls_cases id a (c ∷ rest) w (one, others) before =
      elim (call-Guarded id before.row c w one before.found) [
        | inl kept ↦
            elim (serve_calls_cases id a rest (after_call p l views server c w) others (
              Kept-trans id a before.row (after_call p l views server c w).tables before.owner
                before.currency before.balance kept)) [
                  | inl end ↦ inl end
                  | inr acts ↦ inr (inr acts)
                ]
        | inr (q, carries, owner) ↦ inr (inl (q, carries, owner ∙ before.owner))
      ]

  -- After any sequence of calls to the gRPC server, of any of its methods, by anyone and at any times, whether
  -- they succeed, are refused or fail, and whichever exchanges with the database are lost, an account is
  -- still there, with its owner and currency, and holds no less than before; unless some call of the
  -- sequence carried a bearer token that the maker verified at its time and that is its owner's. The amount of no
  -- call of CreateTransfer may be negative in cents.
  pub serve_calls-Kept :
      (id : ℤ) (a : Account) (arrivals : List Arrival) (w : World)
      → AreUpward server arrivals
      → find_row (account_is id) w.tables.accounts ≡ some a
      → Kept id a (serve_calls p l views server arrivals w).tables ⊎ Acts a.owner arrivals w
  serve_calls-Kept id a arrivals w up stored =
      serve_calls_cases id a arrivals w up (still_there id a w.tables stored)
