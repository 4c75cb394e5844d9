-- ===== src/Db/Tx/Transfer/Steps.antt =====
-- The statements of a transfer that succeeds, each with the tables before and after it.
use go_bank.Common.{◌≡◌, some, inl, inr, sym}
use mathlib.Core.Path.{subst₂}
use go_bank.Common.Int.{ℤ, ltb_ℤ, neg_int64}
use go_bank.Db.Models.{Account}
use go_bank.Db.World.{World, Tables, ok, ◌>>=◌, >>=-eq-ok, on_return, if_either}
use go_bank.Db.Query.Accounts.{AddAccountBalanceParams, add_account_balance}
use go_bank.Db.Query.Accounts.Credit.{Credited, add_account_balance-Credited}
use go_bank.Db.Query.Entries.{CreateTransferEntryParams, create_transfer_entry}
use go_bank.Db.Query.Entries.Insert.{Posted, create_transfer_entry-Posted}
use go_bank.Db.Query.Transfers.{CreateTransferParams, create_transfer}
use go_bank.Db.Query.Transfers.Insert.{Recorded, create_transfer-Recorded}
use go_bank.Db.Tx.Exec.{exec_tx_ok}
use go_bank.Db.Tx.Transfer.{
  TransferTxParams, TransferTxResult, add_money, swap_pair, update_balances, transfer_body,
  transfer_tx,
}

abbrev pub debit : TransferTxParams → AddAccountBalanceParams
debit arg = record { amount = neg_int64 arg.amount; id = arg.from_account_id }

abbrev pub credit : TransferTxParams → AddAccountBalanceParams
credit arg = record { amount = arg.amount; id = arg.to_account_id }

-- Two balances were changed one after the other.
pub record CreditedTwo (first second : AddAccountBalanceParams) (a b : Account) (t t' : Tables)
    : Type 0 where
  pub between : Tables
  pub one : Credited first a t between
  pub two : Credited second b between t'

-- The source was debited and the destination credited, in either order.
pub data Moved (arg : TransferTxParams) (from to : Account) (t t' : Tables) : Type 0 where
  from_first : CreditedTwo (debit arg) (credit arg) from to t t' → Moved arg from to t t'
  to_first : CreditedTwo (credit arg) (debit arg) to from t t' → Moved arg from to t t'

add_money-CreditedTwo :
    (id1 x1 id2 x2 : ℤ) (w w' : World) {accounts : Account × Account}
    → add_money id1 x1 id2 x2 w ≡ (ok accounts, w')
    → CreditedTwo
        (record { amount = x1; id = id1 })
        (record { amount = x2; id = id2 })
        accounts.0
        accounts.1
        w.tables
        w'.tables
unfolding add_money
add_money-CreditedTwo id1 x1 id2 x2 w w' {accounts} h =
    let m1 = add_account_balance (record { amount = x1; id = id1 }) in
    let m2 = add_account_balance (record { amount = x2; id = id2 }) in
    let (a, v, one, rest) = >>=-eq-ok m1 _ w w' h in
    let (b, v', two, done) = >>=-eq-ok m2 _ v w' rest in
    on_return
      (λ p u.
        CreditedTwo (record { amount = x1; id = id1 }) (record { amount = x2; id = id2 }) p.0 p.1
          w.tables u.tables)
      done
      (record {
        between = v.tables;
        one = add_account_balance-Credited _ w v one;
        two = add_account_balance-Credited _ v v' two;
      })

swapped-CreditedTwo :
    (id1 x1 id2 x2 : ℤ) (w w' : World) {accounts : Account × Account}
    → (add_money id1 x1 id2 x2 >>= swap_pair) w ≡ (ok accounts, w')
    → CreditedTwo
        (record { amount = x1; id = id1 })
        (record { amount = x2; id = id2 })
        accounts.1
        accounts.0
        w.tables
        w'.tables
swapped-CreditedTwo id1 x1 id2 x2 w w' {accounts} h =
    let (pair, v, both, done) = >>=-eq-ok (add_money id1 x1 id2 x2) _ w w' h in
    on_return
      (λ p u.
        CreditedTwo (record { amount = x1; id = id1 }) (record { amount = x2; id = id2 }) p.1 p.0
          w.tables u.tables)
      done (add_money-CreditedTwo id1 x1 id2 x2 w v both)

pub update_balances-Moved :
    (arg : TransferTxParams) (w w' : World) {accounts : Account × Account}
    → update_balances arg w ≡ (ok accounts, w')
    → Moved arg accounts.0 accounts.1 w.tables w'.tables
unfolding update_balances
update_balances-Moved arg w w' h =
    elim (if_either (ltb_ℤ arg.from_account_id arg.to_account_id) _ _ w h) [
      | inl (_, first) ↦ from_first (add_money-CreditedTwo _ _ _ _ w w' first)
      | inr (_, first) ↦ to_first (swapped-CreditedTwo _ _ _ _ w w' first)
    ]

abbrev pub to_record : TransferTxParams → CreateTransferParams
to_record arg = record {
  from_account_id = arg.from_account_id;
  to_account_id = arg.to_account_id;
  amount = arg.amount;
}

abbrev pub out_entry : TransferTxParams → ℤ → CreateTransferEntryParams
out_entry arg id = record {
  account_id = arg.from_account_id;
  amount = neg_int64 arg.amount;
  transfer_id = some id;
}

abbrev pub in_entry : TransferTxParams → ℤ → CreateTransferEntryParams
in_entry arg id = record {
  account_id = arg.to_account_id;
  amount = arg.amount;
  transfer_id = some id;
}

-- The whole of a committed transfer.
pub record Committed (arg : TransferTxParams) (r : TransferTxResult) (t t' : Tables) : Type 0 where
  pub t1 : Tables
  pub t2 : Tables
  pub t3 : Tables
  pub recorded : Recorded (to_record arg) r.transfer t t1
  pub posted_out : Posted (out_entry arg r.transfer.id) r.from_entry t1 t2
  pub posted_in : Posted (in_entry arg r.transfer.id) r.to_entry t2 t3
  pub moved : Moved arg r.from_account r.to_account t3 t'

transfer_body-Committed :
    (arg : TransferTxParams) (w w' : World) {r : TransferTxResult}
    → transfer_body arg w ≡ (ok r, w')
    → Committed arg r w.tables w'.tables
unfolding transfer_body
transfer_body-Committed arg w w' {r} h =
    let (t, v1, made, h1) = >>=-eq-ok (create_transfer (to_record arg)) _ w w' h in
    let (e, v2, out, h2) = >>=-eq-ok (create_transfer_entry (out_entry arg t.id)) _ v1 w' h1 in
    let (f, v3, into, h3) = >>=-eq-ok (create_transfer_entry (in_entry arg t.id)) _ v2 w' h2 in
    let (p, v4, moved, done) = >>=-eq-ok (update_balances arg) _ v3 w' h3 in
    on_return (λ result u. Committed arg result w.tables u.tables) done
      (record {
        t1 = v1.tables;
        t2 = v2.tables;
        t3 = v3.tables;
        recorded = create_transfer-Recorded _ w v1 made;
        posted_out = create_transfer_entry-Posted _ v1 v2 out;
        posted_in = create_transfer_entry-Posted _ v2 v3 into;
        moved = update_balances-Moved arg v3 v4 moved;
      })

pub transfer_tx-Committed :
    (arg : TransferTxParams) (w w' : World) {r : TransferTxResult}
    → transfer_tx arg w ≡ (ok r, w')
    → Committed arg r w.tables w'.tables
unfolding transfer_tx
transfer_tx-Committed arg w w' {r} h =
    let (v, v', before, _, ran, after) = exec_tx_ok (transfer_body arg) w w' h in
    subst₂ (λ t t'. Committed arg r t t') before (sym after) (transfer_body-Committed arg v v' ran)
