-- ===== src/Db/Tx/Transfer/Money.antt =====
-- Where the money goes in a transfer.
use go_bank.Common.{◌≡◌, ◌≢◌, ◌∙◌, refl, ap, sym, some, List, ◌⊎◌, inl, inr, Bool-cases}
use mathlib.Core.Path.{subst}
use go_bank.Common.Int.{
  ℤ, ◌+ℤ◌, ◌-ℤ◌, min_int64, neg_int64, neg_int64_parts, int_laws, eq_ℤ, eq_ℤ-iff, eq_ℤ-apart,
}
use go_bank.Common.Lists.{find_row}
use go_bank.Db.Models.{Account}
use go_bank.Db.World.{World, Tables, ok}
use go_bank.Db.Query.Page.{account_is}
use go_bank.Db.Query.Accounts.{AddAccountBalanceParams}
use go_bank.Db.Query.Accounts.Credit.{
  Credited, total, Credited-total, Credited-self, Credited-other,
}
use go_bank.Db.Tx.Transfer.{TransferTxParams, TransferTxResult, transfer_tx}
use go_bank.Db.Tx.Transfer.Steps.{
  debit, CreditedTwo, Moved, from_first, to_first, Committed, transfer_tx-Committed,
}

CreditedTwo-total :
    {x y : AddAccountBalanceParams} {a b : Account} {t t' : Tables}
    → CreditedTwo x y a b t t'
    → total t'.accounts ≡ total t.accounts +ℤ x.amount +ℤ y.amount
CreditedTwo-total {y} m = Credited-total m.two ∙ ap (λ s. s +ℤ y.amount) (Credited-total m.one)

module _ {arg : TransferTxParams} {a b : Account} {t t' : Tables} where
  Moved-total : arg.amount ≢ min_int64 → Moved arg a b t t' → total t'.accounts ≡ total t.accounts
  Moved-total h (from_first m) =
      CreditedTwo-total m ∙ omega (int_laws, neg_int64_parts arg.amount h)
  Moved-total h (to_first m) = CreditedTwo-total m ∙ omega (int_laws, neg_int64_parts arg.amount h)

module _ {arg : TransferTxParams} {r : TransferTxResult} {t t' : Tables}
    (c : Committed arg r t t') where
  -- The inserts come before the updates and leave the accounts alone.
  pub accounts_before : c.t3.accounts ≡ t.accounts
  accounts_before =
      ap (λ u. u.accounts) c.posted_in.after
      ∙ ap (λ u. u.accounts) c.posted_out.after
      ∙ ap (λ u. u.accounts) c.recorded.after

-- A committed transfer conserves the money in the bank, also from an account to itself, for every
-- int64 amount but the least.
pub transfer_tx-total :
    (arg : TransferTxParams) (w w' : World) (r : TransferTxResult)
    → arg.amount ≢ min_int64
    → transfer_tx arg w ≡ (ok r, w')
    → total w'.tables.accounts ≡ total w.tables.accounts
transfer_tx-total arg w w' r h e =
    let c = transfer_tx-Committed arg w w' e in Moved-total h c.moved ∙ ap total (accounts_before c)

neg_least : neg_int64 min_int64 ≡ min_int64
unfolding neg_int64
neg_least = refl

least_total :
    (s : ℤ) (x y : ℤ) → x ≡ min_int64 → y ≡ min_int64 → s +ℤ x +ℤ y ≡ s +ℤ min_int64 +ℤ min_int64
least_total s x y h k = rw (h, k)

-- The least int64 is its own negation, so a committed transfer of it takes 2 ^ 63 from both ends.
pub transfer_tx-total_least :
    (arg : TransferTxParams) (w w' : World) (r : TransferTxResult)
    → arg.amount ≡ min_int64
    → transfer_tx arg w ≡ (ok r, w')
    → total w'.tables.accounts ≡ total w.tables.accounts +ℤ min_int64 +ℤ min_int64
transfer_tx-total_least arg w w' r h e =
    let c = transfer_tx-Committed arg w w' e in
    moved c.moved ∙ ap (λ rows. total rows +ℤ min_int64 +ℤ min_int64) (accounts_before c)
  where
    least : neg_int64 arg.amount ≡ min_int64
    least = ap neg_int64 h ∙ neg_least

    moved :
        {a b : Account} {t t' : Tables}
        → Moved arg a b t t'
        → total t'.accounts ≡ total t.accounts +ℤ min_int64 +ℤ min_int64
    moved (from_first m) = CreditedTwo-total m ∙ least_total _ _ _ least h
    moved (to_first m) = CreditedTwo-total m ∙ least_total _ _ _ h least

-- What a transfer between two accounts comes to: the source has lost the amount, the target has
-- gained it, and every other account is as it was.
pub record Shifted (arg : TransferTxParams) (rows rows' : List Account) : Type 0 where
  pub source : Account
  pub target : Account
  pub had_source : find_row (account_is arg.from_account_id) rows ≡ some source
  pub had_target : find_row (account_is arg.to_account_id) rows ≡ some target
  pub debited :
      find_row (account_is arg.from_account_id) rows'
      ≡ some (record source { balance = source.balance -ℤ arg.amount })
  pub credited :
      find_row (account_is arg.to_account_id) rows'
      ≡ some (record target { balance = target.balance +ℤ arg.amount })
  pub others :
      (id : ℤ)
      → (id ≡ arg.from_account_id)
        ⊎ (id ≡ arg.to_account_id)
        ⊎ (find_row (account_is id) rows' ≡ find_row (account_is id) rows)

-- What holds of every id but two.
unless_end : {P : Type 0} (id a b : ℤ) → (id ≢ a → id ≢ b → P) → (id ≡ a) ⊎ (id ≡ b) ⊎ P
unless_end id a b f = elim (Bool-cases (eq_ℤ id a)) [
  | inl h ↦ inl ((eq_ℤ-iff id a).0 h)
  | inr n ↦ elim (Bool-cases (eq_ℤ id b)) [
    | inl h ↦ inr (inl ((eq_ℤ-iff id b).0 h))
    | inr m ↦ inr (inr (f (eq_ℤ-apart id a n) (eq_ℤ-apart id b m)))
  ]
]

debit_exact : (b a : ℤ) → a ≢ min_int64 → b +ℤ neg_int64 a ≡ b -ℤ a
debit_exact b a h = omega (int_laws, neg_int64_parts a h)

debited_row :
    (arg : TransferTxParams) {c : Account} {u u' : Tables} (d : Credited (debit arg) c u u')
    → arg.amount ≢ min_int64
    → c ≡ record (d.old) { balance = d.old.balance -ℤ arg.amount }
debited_row arg d exact =
    d.returned
    ∙ ap (λ x. record (d.old) { balance = x }) (debit_exact d.old.balance arg.amount exact)

module _ {arg : TransferTxParams} {a b : Account} {t t' : Tables}
    (apart : arg.from_account_id ≢ arg.to_account_id) (exact : arg.amount ≢ min_int64) where
  Moved-Shifted : Moved arg a b t t' → Shifted arg t.accounts t'.accounts
  Moved-Shifted (from_first m) = record {
    source = m.one.old;
    target = m.two.old;
    had_source = m.one.found;
    had_target = sym (Credited-other m.one arg.to_account_id (λ e. apart (sym e))) ∙ m.two.found;
    debited =
        Credited-other m.two arg.from_account_id apart
        ∙ Credited-self m.one
        ∙ ap some (debited_row arg m.one exact);
    credited = Credited-self m.two ∙ ap some m.two.returned;
    others = λ id. unless_end id _ _ λ f g. Credited-other m.two id g ∙ Credited-other m.one id f;
  }
  Moved-Shifted (to_first m) = record {
    source = m.two.old;
    target = m.one.old;
    had_source = sym (Credited-other m.one arg.from_account_id apart) ∙ m.two.found;
    had_target = m.one.found;
    debited = Credited-self m.two ∙ ap some (debited_row arg m.two exact);
    credited =
        Credited-other m.two arg.to_account_id (λ e. apart (sym e))
        ∙ Credited-self m.one
        ∙ ap some m.one.returned;
    others = λ id. unless_end id _ _ λ f g. Credited-other m.two id f ∙ Credited-other m.one id g;
  }

-- A committed transfer between two different accounts takes the amount from the source, gives it to
-- the target and touches no other account, for every int64 amount but the least.
pub transfer_tx-Shifted :
    (arg : TransferTxParams) (w w' : World) (r : TransferTxResult)
    → arg.from_account_id ≢ arg.to_account_id
    → arg.amount ≢ min_int64
    → transfer_tx arg w ≡ (ok r, w')
    → Shifted arg w.tables.accounts w'.tables.accounts
transfer_tx-Shifted arg w w' r apart exact e =
    let c = transfer_tx-Committed arg w w' e in
    subst (λ rows. Shifted arg rows w'.tables.accounts) (accounts_before c)
      (Moved-Shifted apart exact c.moved)
