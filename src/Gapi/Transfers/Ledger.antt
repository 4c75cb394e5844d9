-- ===== src/Gapi/Transfers/Ledger.antt =====
-- The entries account for the balances.
use go_bank.Common.{
  ◌≡◌, ◌≢◌, refl, ap, sym, ◌∙◌, Bool, true, false, Option, none, some, List, [], ◌∷◌, ◌++◌,
  Bool-cases, inl, inr, if◌then◌else◌,
}
use mathlib.Core.Path.{subst}
use go_bank.Common.Int.{
  ℤ, pos, ◌+ℤ◌, eq_ℤ, eq_ℤ-iff, eq_ℤ-ne, eq_ℤ-apart, min_int64, neg_int64, neg_int64_parts,
  int_laws,
}
use go_bank.Db.Models.{Entry}
use go_bank.Db.World.{World, Tables, Result, ok, err}
use go_bank.Db.Tx.Transfer.{TransferTxParams, TransferTxResult, transfer_tx}
use go_bank.Db.Tx.Transfer.Money.{transfer_tx-Shifted}
use go_bank.Db.Tx.Transfer.Books.{Booked, transfer_tx-Booked}
use go_bank.Gapi.Transfers.Refinement.{
  Call, AreExact, balances, less, more, moved, run, Shifted-moved,
}
use go_bank.Gapi.Status.{Status}
use go_bank.Gapi.Server.{Server}
use go_bank.Gapi.Transfers.{CreateTransferResponse, create_transfer}
use go_bank.Gapi.Transfers.Effect.{create_transfer-Cleared}
use go_bank.Gapi.Guards.Transfers.{params, requested}
use go_bank.Gapi.Effects.{create_transfer-IsAtomic}

-- The sum of the entries of an account.
abbrev pub posted : ℤ → List Entry → ℤ
posted id [] = pos 0
posted id (e ∷ es) =
    let rest = posted id es in if eq_ℤ e.account_id id then rest +ℤ e.amount else rest

abbrev pub plus : ℤ → Option ℤ → Option ℤ
plus amount none = none
plus amount (some b) = some (b +ℤ amount)

-- Each balance is what the account opened with and its entries have added.
pub record IsReconciled (opening : ℤ → Option ℤ) (t : Tables) : Type 0 where
  pub account : (id : ℤ) → balances t id ≡ plus (posted id t.entries) (opening id)

pub one_more :
    (b c : Bool) (q p x a : ℤ)
    → q ≡ (if c then p +ℤ a else p)
    → (if b then q +ℤ x else q)
      ≡ (if c then (if b then p +ℤ x else p) +ℤ a else (if b then p +ℤ x else p))
one_more true true q p x a h = ap (λ y. y +ℤ x) h ∙ omega int_laws
one_more true false q p x a h = ap (λ y. y +ℤ x) h
one_more false true q p x a h = h
one_more false false q p x a h = h

posted-last :
    (id : ℤ) (es : List Entry) (e : Entry)
    → posted id (es ++ e ∷ [])
      ≡ (if eq_ℤ e.account_id id then posted id es +ℤ e.amount else posted id es)
posted-last id [] e = refl
posted-last id (x ∷ es) e =
    one_more (eq_ℤ x.account_id id) (eq_ℤ e.account_id id) (posted id (es ++ e ∷ [])) (posted id es)
      x.amount e.amount (posted-last id es e)

less-plus : (a p : ℤ) (o : Option ℤ) → a ≢ min_int64 → less a (plus p o) ≡ plus (p +ℤ neg_int64 a) o
less-plus a p none exact = refl
less-plus a p (some b) exact = ap some (omega (int_laws, neg_int64_parts a exact))

more-plus : (a p : ℤ) (o : Option ℤ) → more a (plus p o) ≡ plus (p +ℤ a) o
more-plus a p none = refl
more-plus a p (some b) = ap some (omega int_laws)

module _ (arg : TransferTxParams) (r : TransferTxResult) (t t' : Tables)
    (books : Booked arg r t t') where
  -- What a transfer posts on an account.
  posted-Booked :
      (id : ℤ)
      → posted id t'.entries ≡ (
          let p =
            if eq_ℤ arg.from_account_id id
            then posted id t.entries +ℤ neg_int64 arg.amount
            else posted id t.entries in
          if eq_ℤ arg.to_account_id id then p +ℤ arg.amount else p)
  posted-Booked id =
      ap (posted id) books.entries
      ∙ posted-last id (t.entries ++ r.from_entry ∷ []) r.to_entry
      ∙ rw
          (
            posted-last id t.entries r.from_entry,
            books.from_side,
            books.to_side,
            books.taken,
            books.given,
          )
          refl

  Booked-moved :
      (id : ℤ) (o : Option ℤ)
      → arg.from_account_id ≢ arg.to_account_id
      → arg.amount ≢ min_int64
      → balances t id ≡ plus (posted id t.entries) o
      → moved arg (balances t) id ≡ plus (posted id t'.entries) o
  Booked-moved id o apart exact h = elim (Bool-cases (eq_ℤ id arg.from_account_id)) [
    | inl from ↦
        let e = (eq_ℤ-iff id arg.from_account_id).0 from in
        rw
          (
            posted-Booked id,
            from,
            (eq_ℤ-iff arg.from_account_id id).1 (sym e),
            eq_ℤ-ne arg.to_account_id id (λ k. apart (sym (k ∙ e))),
          )
          (ap (less arg.amount) h ∙ less-plus arg.amount (posted id t.entries) o exact)
    | inr n ↦ elim (Bool-cases (eq_ℤ id arg.to_account_id)) [
      | inl to ↦
          let e = (eq_ℤ-iff id arg.to_account_id).0 to in
          rw
            (
              posted-Booked id,
              n,
              to,
              (eq_ℤ-iff arg.to_account_id id).1 (sym e),
              eq_ℤ-ne arg.from_account_id id (λ k. apart (k ∙ e)),
            )
            (ap (more arg.amount) h ∙ more-plus arg.amount (posted id t.entries) o)
      | inr m ↦
          rw
            (
              posted-Booked id,
              n,
              m,
              eq_ℤ-ne arg.from_account_id id (λ k. eq_ℤ-apart id arg.from_account_id n (sym k)),
              eq_ℤ-ne arg.to_account_id id (λ k. eq_ℤ-apart id arg.to_account_id m (sym k)),
            )
            h
    ]
  ]

-- A committed transfer between two accounts keeps the books reconciled: each balance stays what the account opened with and
-- its entries have added. The amount must not be the least int64.
pub transfer_tx-IsReconciled :
    (opening : ℤ → Option ℤ) (arg : TransferTxParams) (w w' : World) (r : TransferTxResult)
    → arg.from_account_id ≢ arg.to_account_id
    → arg.amount ≢ min_int64
    → IsReconciled opening w.tables
    → transfer_tx arg w ≡ (ok r, w')
    → IsReconciled opening w'.tables
transfer_tx-IsReconciled opening arg w w' r apart exact before h =
    let books = transfer_tx-Booked arg w w' r exact h in
    let shift = transfer_tx-Shifted arg w w' r apart exact h in
    record {
      account = λ id.
          ap (λ b. b id) (Shifted-moved arg w.tables w'.tables shift)
          ∙ Booked-moved arg r w.tables w'.tables books id (opening id) apart exact
              (before.account id);
    }

IsReconciled-step :
    (opening : ℤ → Option ℤ) (server : Server) (c : Call) (w : World)
    → requested server c.req ≢ min_int64
    → IsReconciled opening w.tables
    → (r : Result Status CreateTransferResponse) (v : World)
    → create_transfer server c.ctx c.req w ≡ (r, v)
    → IsReconciled opening v.tables
IsReconciled-step opening server c w exact before (ok rsp) v e =
    let (clear, u, r, same, ran, _) = create_transfer-Cleared server c.ctx c.req w v e in
    transfer_tx-IsReconciled opening (params (requested server c.req) c.req) u v r
      clear.valid.distinct exact (subst (IsReconciled opening) (sym same) before) ran
IsReconciled-step opening server c w exact before (err x) v e =
    subst (IsReconciled opening)
      (sym ((create_transfer-IsAtomic server c.ctx c.req).undone w v x e)) before

-- Reconciled books stay reconciled under every sequence of calls of CreateTransfer, whoever makes them, whether they succeed or
-- fail and whichever exchanges are lost: each balance is what the account opened with and its
-- entries have added. No amount may be the least int64 in cents.
pub run-IsReconciled :
    (opening : ℤ → Option ℤ) (server : Server) (calls : List Call) (w : World)
    → AreExact server calls
    → IsReconciled opening w.tables
    → IsReconciled opening (run server calls w).0.tables
unfolding run
run-IsReconciled opening server [] w exact before = before
run-IsReconciled opening server (c ∷ calls) w (one, others) before =
    let (r, v) = create_transfer server c.ctx c.req w in
    run-IsReconciled opening server calls v others
      (IsReconciled-step opening server c w one before r v refl)
