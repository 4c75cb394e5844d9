-- ===== src/Db/Tx/Transfer/Books.antt =====
-- The rows that a transfer adds to the books.
use go_bank.Common.{◌≡◌, ◌≢◌, ◌∙◌, ap, some, [], ◌∷◌, ◌++◌}
use go_bank.Common.Int.{pos, ◌+ℤ◌, min_int64, neg_int64, neg_int64_parts, int_laws, parts_of_eq}
use go_bank.Db.Models.{Account}
use go_bank.Db.World.{World, Tables, ok}
use go_bank.Db.Tx.Transfer.{TransferTxParams, TransferTxResult, transfer_tx}
use go_bank.Db.Tx.Transfer.Steps.{Moved, from_first, to_first, transfer_tx-Committed}

-- The three rows that a transfer leaves behind.
pub record Booked (arg : TransferTxParams) (r : TransferTxResult) (t t' : Tables) : Type 0 where
  pub transfers : t'.transfers ≡ t.transfers ++ r.transfer ∷ []
  pub entries : t'.entries ≡ (t.entries ++ r.from_entry ∷ []) ++ r.to_entry ∷ []
  pub amount : r.transfer.amount ≡ arg.amount
  pub from_side : r.from_entry.account_id ≡ arg.from_account_id
  pub to_side : r.to_entry.account_id ≡ arg.to_account_id
  pub from_linked : r.from_entry.transfer_id ≡ some r.transfer.id
  pub to_linked : r.to_entry.transfer_id ≡ some r.transfer.id
  pub taken : r.from_entry.amount ≡ neg_int64 arg.amount
  pub given : r.to_entry.amount ≡ arg.amount
  pub balanced : r.from_entry.amount +ℤ r.to_entry.amount ≡ pos 0

Moved-entries :
    {arg : TransferTxParams} {a b : Account} {t t' : Tables}
    → Moved arg a b t t'
    → (t'.entries ≡ t.entries) × (t'.transfers ≡ t.transfers)
Moved-entries (from_first m) = (
  ap (λ u. u.entries) m.two.after ∙ ap (λ u. u.entries) m.one.after,
  ap (λ u. u.transfers) m.two.after ∙ ap (λ u. u.transfers) m.one.after,
)
Moved-entries (to_first m) = (
  ap (λ u. u.entries) m.two.after ∙ ap (λ u. u.entries) m.one.after,
  ap (λ u. u.transfers) m.two.after ∙ ap (λ u. u.transfers) m.one.after,
)

-- A committed transfer adds one transfer and two entries that point to it, one on each account, which
-- take the amount from the source and give it to the target and cancel, for every int64 amount but
-- the least.
pub transfer_tx-Booked :
    (arg : TransferTxParams) (w w' : World) (r : TransferTxResult)
    → arg.amount ≢ min_int64
    → transfer_tx arg w ≡ (ok r, w')
    → Booked arg r w.tables w'.tables
transfer_tx-Booked arg w w' r exact e =
    let c = transfer_tx-Committed arg w w' e in
    let kept = Moved-entries c.moved in
    let rec = c.recorded in
    let out = c.posted_out in
    let into = c.posted_in in
    record {
      transfers =
          kept.1
          ∙ ap (λ u. u.transfers) into.after
          ∙ ap (λ u. u.transfers) out.after
          ∙ ap (λ u. u.transfers) rec.after;
      entries =
          kept.0
          ∙ ap (λ u. u.entries) into.after
          ∙ ap (λ es. es ++ r.to_entry ∷ [])
              (ap (λ u. u.entries) out.after ∙ ap (λ u. u.entries ++ r.from_entry ∷ []) rec.after);
      amount = rec.amount;
      from_side = out.account_id;
      to_side = into.account_id;
      from_linked = out.transfer_id;
      to_linked = into.transfer_id;
      taken = out.amount;
      given = into.amount;
      balanced = omega (
        int_laws,
        parts_of_eq out.amount,
        parts_of_eq into.amount,
        neg_int64_parts arg.amount exact,
      );
    }
