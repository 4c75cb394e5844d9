-- ===== src/Db/Tx/Exec.antt =====
-- `Store.execTx` (db/sqlc/store.go). Begin, rollback and commit are exchanges with the server too.
-- A transaction whose commit or rollback is lost has not been committed: the server undoes it.
use go_bank.Common.{[], ◌≡◌, refl, ap, ◌≢◌, ◌∙◌, arith}
use go_bank.Db.World.{
  World, Tables, Action, DbError, both, Result, ok, err, pure, exchange, exchange_keeps_tables,
  bind_result, >>=-eq-ok, ◌>>◌,
}
use go_bank.Db.Success.{Runs, exchange_quiet}

abbrev restore : Tables → World → World
restore saved w = record w { tables = saved }

-- The error of a failed rollback is wrapped together with the first.
abbrev after_rollback : {A : Type 0} → DbError → Result DbError (Unit {0}) → Result DbError A
after_rollback e (ok _) = err e
after_rollback e (err rollback) = err (both e rollback)

abbrev after_commit : {A : Type 0} → Tables → A → Result DbError (Unit {0}) → Action DbError A
after_commit saved a (ok _) w = (ok a, w)
after_commit saved a (err e) w = (err e, restore saved w)

abbrev settle : {A : Type 0} → Tables → Result DbError A → Action DbError A
settle saved (err e) w =
    let (r, w') = exchange (pure tt) w in (after_rollback e r, restore saved w')
settle saved (ok a) w = let (r, w') = exchange (pure tt) w in after_commit saved a r w'

abbrev run_body : {A : Type 0} → Action DbError A → Action DbError A
run_body fn w = let (r, w') = fn w in settle w.tables r w'

unfoldable pub exec_tx : {A : Type 0} → Action DbError A → Action DbError A
exec_tx fn = exchange (pure tt) >> run_body fn

after_commit_failed :
    {A : Type 0} (saved : Tables) (a : A) (r : Result DbError (Unit {0})) (w w' : World)
    {e : DbError}
    → after_commit saved a r w ≡ (err e, w')
    → w'.tables ≡ saved
after_commit_failed saved a (ok _) w w' h = cc
after_commit_failed saved a (err x) w w' h = ground arith

settle_failed :
    {A : Type 0} (saved : Tables) (r : Result DbError A) (w w' : World) {e : DbError}
    → settle saved r w ≡ (err e, w')
    → w'.tables ≡ saved
settle_failed saved (err x) w w' h = ground arith
settle_failed saved (ok a) w w' h =
    after_commit_failed saved a (exchange (pure tt) w).0 (exchange (pure tt) w).1 w' h

from_begin :
    {A : Type 0} (fn : Action DbError A) (w w' v : World) {e : DbError}
    (r : Result DbError (Unit {0}))
    → exchange (pure tt) w ≡ (r, v)
    → bind_result (λ _. run_body fn) r v ≡ (err e, w')
    → w'.tables ≡ w.tables
from_begin fn w w' v (err x) b h = ground (arith, exchange_keeps_tables w v b)
from_begin fn w w' v (ok _) b h =
    settle_failed v.tables (fn v).0 (fn v).1 w' h ∙ exchange_keeps_tables w v b

-- A transaction that returns an error, whatever its body does and whichever exchange of it is lost on
-- the way to the server, has changed no table.
pub exec_tx-atomic :
    {A : Type 0} (fn : Action DbError A) (w w' : World) {e : DbError}
    → exec_tx fn w ≡ (err e, w')
    → w'.tables ≡ w.tables
unfolding exec_tx
exec_tx-atomic fn w w' h =
    from_begin fn w w' (exchange (pure tt) w).1 (exchange (pure tt) w).0 refl h

after_rollback-ne-ok :
    {A : Type 0} (e : DbError) (r : Result DbError (Unit {0})) {a : A} → after_rollback e r ≢ ok a
after_rollback-ne-ok e (ok _) = cc
after_rollback-ne-ok e (err x) = cc

after_commit_ok :
    {A : Type 0} (saved : Tables) (a a' : A) (r : Result DbError (Unit {0})) (w w' : World)
    → after_commit saved a r w ≡ (ok a', w')
    → (a ≡ a') × (w' ≡ w)
after_commit_ok saved a a' (ok _) w w' h = ground arith
after_commit_ok saved a a' (err x) w w' h = cc

settle_ok :
    {A : Type 0} (saved : Tables) (r : Result DbError A) (w w' : World) {a : A}
    → settle saved r w ≡ (ok a, w')
    → (r ≡ ok a) × (w'.tables ≡ w.tables)
settle_ok saved (err x) w w' h =
    absurd (after_rollback-ne-ok x (exchange (pure tt) w).0 (ap (λ p. p.0) h))
settle_ok saved (ok a) w w' h =
    let (same, left) =
      after_commit_ok saved a _ (exchange (pure tt) w).0 (exchange (pure tt) w).1 w' h in
    (ap ok same, ap (λ v. v.tables) left ∙ exchange_keeps_tables w _ refl)

begin_keeps_clock :
    (w w' : World) {r : Result DbError (Unit {0})}
    → exchange (pure tt) w ≡ (r, w')
    → w'.clock ≡ w.clock
unfolding exchange
begin_keeps_clock w w' h = ground arith

-- A transaction that succeeds has run its body to its end, from the tables and at the time that it
-- began with, and leaves the tables as the body left them.
pub exec_tx_ok :
    {A : Type 0} (fn : Action DbError A) (w w' : World) {a : A}
    → exec_tx fn w ≡ (ok a, w')
    → (v v' : World) × (v.tables ≡ w.tables)
      × (v.clock ≡ w.clock)
      × (fn v ≡ (ok a, v'))
      × (w'.tables ≡ v'.tables)
unfolding exec_tx
exec_tx_ok fn w w' h =
    let (_, v, begun, ran) = >>=-eq-ok (exchange (pure tt)) (λ _. run_body fn) w w' h in
    let (finished, left) = settle_ok v.tables (fn v).0 (fn v).1 w' ran in
    (
      v,
      (fn v).1,
      exchange_keeps_tables w v begun,
      begin_keeps_clock w v begun,
      (λ i. (finished i, (fn v).1)),
      left,
    )

exchange_keeps_queue :
    (w w' : World) {r : Result DbError (Unit {0})}
    → exchange (pure tt) w ≡ (r, w')
    → w'.queue ≡ w.queue
unfolding exchange
exchange_keeps_queue w w' h = ground arith

settle_queue :
    {A : Type 0} (saved : Tables) (r : Result DbError A) (w w' : World) {a : A}
    → settle saved r w ≡ (ok a, w')
    → w'.queue ≡ w.queue
settle_queue saved (err x) w w' h =
    absurd (after_rollback-ne-ok x (exchange (pure tt) w).0 (ap (λ p. p.0) h))
settle_queue saved (ok a) w w' h =
    let (_, left) =
      after_commit_ok saved a _ (exchange (pure tt) w).0 (exchange (pure tt) w).1 w' h in
    ap (λ v. v.queue) left ∙ exchange_keeps_queue w _ refl

-- What exec_tx_ok says, with the queue of tasks, which a transaction leaves to its body.
pub exec_tx_queue :
    {A : Type 0} (fn : Action DbError A) (w w' : World) {a : A}
    → exec_tx fn w ≡ (ok a, w')
    → (v v' : World) × (v.tables ≡ w.tables)
      × (v.clock ≡ w.clock)
      × (v.queue ≡ w.queue)
      × (fn v ≡ (ok a, v'))
      × (w'.tables ≡ v'.tables)
      × (w'.queue ≡ v'.queue)
unfolding exec_tx
exec_tx_queue fn w w' h =
    let (_, v, begun, ran) = >>=-eq-ok (exchange (pure tt)) (λ _. run_body fn) w w' h in
    let (finished, left) = settle_ok v.tables (fn v).0 (fn v).1 w' ran in
    (
      v,
      (fn v).1,
      exchange_keeps_tables w v begun,
      begin_keeps_clock w v begun,
      exchange_keeps_queue w v begun,
      (λ i. (finished i, (fn v).1)),
      left,
      settle_queue v.tables (fn v).0 (fn v).1 w' ran,
    )

-- A transaction whose body succeeds is committed, when no fault is waiting.
pub exec_tx-Runs :
    {A : Type 0} (fn : Action DbError A) (w : World)
    → w.faults ≡ []
    → Runs fn w
    → Runs (exec_tx fn) w
unfolding exec_tx
exec_tx-Runs fn w h r = record {
  value = r.value;
  final = r.final;
  ran =
      ap (λ p. bind_result (λ _. run_body fn) p.0 p.1) (exchange_quiet (pure tt) w h)
      ∙ ap (λ p. settle w.tables p.0 p.1) r.ran
      ∙ ap (λ p. after_commit w.tables r.value p.0 p.1) (exchange_quiet (pure tt) r.final r.quiet);
  quiet = r.quiet;
}
