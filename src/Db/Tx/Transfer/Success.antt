-- ===== src/Db/Tx/Transfer/Success.antt =====
-- When a transfer cannot fail.
use go_bank.Common.{
  ◌≡◌, ◌≢◌, refl, ap, sym, ◌∙◌, Bool, true, false, some, List, [], ◌∷◌, ◌++◌, ◌&&◌, if◌then◌else◌,
}
use go_bank.Common.Int.{ℤ, ◌+ℤ◌, in_int64, neg_int64, eq_ℤ-iff, ltb_ℤ}
use go_bank.Common.Lists.Rows.{has_row-append_last}
use go_bank.Common.Lists.{find_row, is_found, has_row}
use go_bank.Db.Models.{Account, Transfer}
use go_bank.Db.World.{World, Action, DbError, with_transfers, with_entries, ◌>>=◌}
use go_bank.Db.Success.{Runs, then-Runs, pure-Runs, exchange_quiet}
use go_bank.Db.Query.Page.{account_is}
use go_bank.Db.Query.Accounts.{AddAccountBalanceParams, add_to_row, credit_row, add_account_balance}
use go_bank.Db.Query.Accounts.Credit.{add_account_balance-Credited, Credited-other}
use go_bank.Db.Query.Transfers.{CreateTransferParams, create_transfer, new_transfer, drawn_id}
use go_bank.Db.Query.Transfers.Insert.{create_transfer-Recorded}
use go_bank.Db.Query.Entries
use go_bank.Db.Query.Entries.{
  CreateTransferEntryParams, transfer_exists, new_entry, create_transfer_entry,
}
use go_bank.Db.Query.Entries.Insert.{create_transfer_entry-Posted}
use go_bank.Db.Tx.Exec.{exec_tx-Runs}
use go_bank.Db.Tx.Transfer.{
  TransferTxParams, add_money, swap_pair, update_balances, transfer_body, transfer_tx,
}
use go_bank.Db.Tx.Transfer.Steps.{to_record, out_entry, in_entry}

both_hold :
    {A : Type 0} (b c : Bool) (x y : A) → b ≡ true → c ≡ true → (if b && c then x else y) ≡ x
both_hold b c x y h k = rw (h, k)

credit_row-Runs :
    (fits : Bool) (arg : AddAccountBalanceParams) (a : Account) (w : World)
    → fits ≡ true
    → w.faults ≡ []
    → Runs (credit_row fits arg a) w
credit_row-Runs true arg a w e h = record { value = _; final = _; ran = refl; quiet = h }
credit_row-Runs false arg a w e h = cc

add_account_balance-Runs :
    (arg : AddAccountBalanceParams) (a : Account) (w : World)
    → w.faults ≡ []
    → find_row (account_is arg.id) w.tables.accounts ≡ some a
    → in_int64 (a.balance +ℤ arg.amount) ≡ true
    → Runs (add_account_balance arg) w
unfolding add_account_balance
add_account_balance-Runs arg a w h found fits =
    let r = credit_row-Runs (in_int64 (a.balance +ℤ arg.amount)) arg a w fits h in
    record {
      value = r.value;
      final = r.final;
      ran = exchange_quiet _ w h ∙ ap (λ o. add_to_row arg o w) found ∙ r.ran;
      quiet = r.quiet;
    }

create_transfer-Runs :
    (arg : CreateTransferParams) (w : World)
    → w.faults ≡ []
    → has_row (account_is arg.from_account_id) w.tables.accounts ≡ true
    → has_row (account_is arg.to_account_id) w.tables.accounts ≡ true
    → Runs (create_transfer arg) w
unfolding create_transfer
create_transfer-Runs arg w h f t = record {
  value = new_transfer arg w;
  final = with_transfers (drawn_id w) (w.tables.transfers ++ new_transfer arg w ∷ []);
  ran = exchange_quiet _ w h ∙ both_hold _ _ _ _ f t;
  quiet = h;
}

create_transfer_entry-Runs :
    (arg : CreateTransferEntryParams) (w : World)
    → w.faults ≡ []
    → has_row (account_is arg.account_id) w.tables.accounts ≡ true
    → transfer_exists arg.transfer_id w.tables.transfers ≡ true
    → Runs (create_transfer_entry arg) w
unfolding create_transfer_entry
create_transfer_entry-Runs arg w h f t = record {
  value = new_entry arg w;
  final = with_entries (Entries.drawn_id w) (w.tables.entries ++ new_entry arg w ∷ []);
  ran = exchange_quiet _ w h ∙ both_hold _ _ _ _ f t;
  quiet = h;
}

module _ (id1 x1 id2 x2 : ℤ) (a b : Account) (w : World) (h : w.faults ≡ []) (apart : id2 ≢ id1)
    (found1 : find_row (account_is id1) w.tables.accounts ≡ some a)
    (found2 : find_row (account_is id2) w.tables.accounts ≡ some b)
    (fits1 : in_int64 (a.balance +ℤ x1) ≡ true) (fits2 : in_int64 (b.balance +ℤ x2) ≡ true) where
  add_money-Runs : Runs (add_money id1 x1 id2 x2) w
  unfolding add_money
  add_money-Runs =
      let first = add_account_balance-Runs (record { amount = x1; id = id1 }) a w h found1 fits1 in
      let done = add_account_balance-Credited _ w first.final first.ran in
      let second =
        add_account_balance-Runs (record { amount = x2; id = id2 }) b first.final first.quiet
          (Credited-other done id2 apart ∙ found2) fits2 in
      then-Runs first _ (then-Runs second _ (pure-Runs _ second.final second.quiet))

-- What a transfer needs: no fault waiting, both accounts, and room for the new balances.
pub record Ready (arg : TransferTxParams) (from to : Account) (w : World) : Type 0 where
  pub quiet : w.faults ≡ []
  pub apart : arg.to_account_id ≢ arg.from_account_id
  pub from_found : find_row (account_is arg.from_account_id) w.tables.accounts ≡ some from
  pub to_found : find_row (account_is arg.to_account_id) w.tables.accounts ≡ some to
  pub from_fits : in_int64 (from.balance +ℤ neg_int64 arg.amount) ≡ true
  pub to_fits : in_int64 (to.balance +ℤ arg.amount) ≡ true

Ready-later :
    {arg : TransferTxParams} {from to : Account} {w : World} (v : World)
    → Ready arg from to w
    → v.faults ≡ []
    → v.tables.accounts ≡ w.tables.accounts
    → Ready arg from to v
Ready-later {arg} v r h same = record {
  quiet = h;
  apart = r.apart;
  from_found = ap (find_row (account_is arg.from_account_id)) same ∙ r.from_found;
  to_found = ap (find_row (account_is arg.to_account_id)) same ∙ r.to_found;
  from_fits = r.from_fits;
  to_fits = r.to_fits;
}

either_action :
    {A : Type 0} (b : Bool) (m n : Action DbError A) (w : World)
    → Runs m w
    → Runs n w
    → Runs (if b then m else n) w
either_action true m n w r s = r
either_action false m n w r s = s

swap_back : (p : Account × Account) (w : World) → w.faults ≡ [] → Runs (swap_pair p) w
swap_back (a, b) w h = pure-Runs (b, a) w h

then_swapped :
    {m : Action DbError (Account × Account)} {w : World} → Runs m w → Runs (m >>= swap_pair) w
then_swapped r = then-Runs r swap_pair (swap_back r.value r.final r.quiet)

update_balances-Runs :
    (arg : TransferTxParams) (from to : Account) (w : World)
    → Ready arg from to w
    → Runs (update_balances arg) w
unfolding update_balances
update_balances-Runs arg from to w r =
    either_action (ltb_ℤ arg.from_account_id arg.to_account_id) _ _ w
      (add_money-Runs _ _ _ _ from to w r.quiet r.apart r.from_found r.to_found r.from_fits
        r.to_fits)
      (then_swapped (
        add_money-Runs _ _ _ _ to from w r.quiet (λ e. r.apart (sym e)) r.to_found r.from_found
          r.to_fits r.from_fits))

transfer_exists-append_last :
    (xs : List Transfer) (new : Transfer) → transfer_exists (some new.id) (xs ++ new ∷ []) ≡ true
transfer_exists-append_last xs new = has_row-append_last _ xs new ((eq_ℤ-iff new.id new.id).1 refl)

Ready-from :
    {arg : TransferTxParams} {from to : Account} {w : World}
    → Ready arg from to w
    → has_row (account_is arg.from_account_id) w.tables.accounts ≡ true
Ready-from r = ap is_found r.from_found

Ready-to :
    {arg : TransferTxParams} {from to : Account} {w : World}
    → Ready arg from to w
    → has_row (account_is arg.to_account_id) w.tables.accounts ≡ true
Ready-to r = ap is_found r.to_found

transfer_body-Runs :
    (arg : TransferTxParams) (from to : Account) (w : World)
    → Ready arg from to w
    → Runs (transfer_body arg) w
unfolding transfer_body
transfer_body-Runs arg from to w r =
    let s1 = create_transfer-Runs (to_record arg) w r.quiet (Ready-from r) (Ready-to r) in
    let after1 = (create_transfer-Recorded _ w s1.final s1.ran).after in
    let r1 = Ready-later s1.final r s1.quiet (ap (λ t. t.accounts) after1) in
    let known1 =
      ap (λ t. transfer_exists (some s1.value.id) t.transfers) after1
      ∙ transfer_exists-append_last _ s1.value in
    let s2 =
      create_transfer_entry-Runs (out_entry arg s1.value.id) s1.final s1.quiet (Ready-from r1)
        known1 in
    let after2 = (create_transfer_entry-Posted _ s1.final s2.final s2.ran).after in
    let r2 = Ready-later s2.final r1 s2.quiet (ap (λ t. t.accounts) after2) in
    let known2 = ap (λ t. transfer_exists (some s1.value.id) t.transfers) after2 ∙ known1 in
    let s3 =
      create_transfer_entry-Runs (in_entry arg s1.value.id) s2.final s2.quiet (Ready-to r2)
        known2 in
    let after3 = (create_transfer_entry-Posted _ s2.final s3.final s3.ran).after in
    let r3 = Ready-later s3.final r2 s3.quiet (ap (λ t. t.accounts) after3) in
    let s4 = update_balances-Runs arg from to s3.final r3 in
    then-Runs s1 _
      (then-Runs s2 _ (then-Runs s3 _ (then-Runs s4 _ (pure-Runs _ s4.final s4.quiet))))

-- A transfer between two different stored accounts whose new balances both fit in 64 bits succeeds
-- when no statement meets a fault.
pub transfer_tx-Runs :
    (arg : TransferTxParams) (from to : Account) (w : World)
    → Ready arg from to w
    → Runs (transfer_tx arg) w
unfolding transfer_tx
transfer_tx-Runs arg from to w r =
    exec_tx-Runs (transfer_body arg) w r.quiet (transfer_body-Runs arg from to w r)
