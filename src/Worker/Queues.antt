-- ===== src/Worker/Queues.antt =====
-- worker/payload.go, worker/processor.go and worker/logger.go: the queues of the processor, the task that it
-- handles, and the lines that asynq's server gives to the log. `fmt.Sprint` of asynq's arguments and the
-- texts of errors are parameters.
use go_bank.Common.{ℕ, Option, none, some, List, [], ◌∷◌, String, if◌then◌else◌, str_eq}
use go_bank.Db.World.{Action}
use go_bank.Logger.Entry.{Level, error, Line, string_field}
use go_bank.Logger.Core.{Package, Logger, own_or_global, log_line}
use go_bank.Worker.Process.{TaskError, TaskProcessor, process_task_send_verify_email}

abbrev pub queue_critical : String
queue_critical = "critical"

abbrev pub queue_default : String
queue_default = "default"

abbrev pub queue_low : String
queue_low = "low"

abbrev pub task_send_verify_email : String
task_send_verify_email = "task:send_verify_email"

-- asynq.Config: how many tasks run at once, and the priority of each queue.
abbrev pub concurrency : ℕ
concurrency = 10

unfoldable pub queues : List (String × ℕ)
queues = (queue_critical, 10) ∷ (queue_default, 5) ∷ (queue_low, 1) ∷ []

-- A line of the global logger; none is its panic.
abbrev global_line : Package → (Logger → Line) → Option Line
global_line p line = elim (own_or_global none p) [ none ↦ none | some l ↦ some (line l) ]

-- Debug, Info, Warn, Error and Fatal of the adapter.
unfoldable pub adapted_line : Package → Level → (printed : String) → Option Line
unfolding log_line
adapted_line p level printed =
    global_line p λ l. log_line level l printed (string_field "source" "asynq" ∷ [])

-- The error handler, which the processor makes with the logger at its start.
unfoldable pub error_line : Logger → (kind payload message : String) → Line
unfolding log_line
error_line l kind payload message =
    log_line error l "failed to process task:" (
      string_field "type" kind ∷ string_field "payload" payload ∷ string_field "error" message ∷ [])

-- The handler that Start registers for a type of tasks; asynq answers the others.
unfoldable pub handler_for :
    TaskProcessor → (kind : String) → Option (Option String → Action TaskError (Unit {0}))
handler_for processor kind =
    if str_eq kind task_send_verify_email
    then some (process_task_send_verify_email processor)
    else none
