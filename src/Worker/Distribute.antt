-- ===== src/Worker/Distribute.antt =====
-- The producer's side of worker/task_send_verify_email.go. The task's payload is a username, and its
-- JSON never fails; the queue is Redis, which may be out of reach.
use go_bank.Common.{[], ◌∷◌, ◌++◌, String}
use go_bank.Db.World.{Action, DbError, ok, exchange}

unfoldable pub distribute_task_send_verify_email : String → Action DbError (Unit {0})
distribute_task_send_verify_email username =
    exchange λ w. (ok tt, record w { queue = w.queue ++ username ∷ [] })
