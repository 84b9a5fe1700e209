-- ===== src/Tasks/Lifecycle.antt =====
-- server/api/task_routes.py: cancellation, and the timeout of upgrades.
use batch_shutdown_assistant.Prelude.{
  ℕ, ◌+◌, ◌*◌, String, Bool, true, false, ◌||◌, ◌&&◌, Option, none, some, select, update_where,
  any_row, ltb, Result, ok, err, http, scalar_one_or_none, ◌==◌, if◌then◌else◌,
}
use batch_shutdown_assistant.Models.{Task, TaskResult, TaskType, TaskStatus, Db}
use batch_shutdown_assistant.Audit.{log_audit}
use batch_shutdown_assistant.Tasks.{
  has_task_id, of_task, second, set_status, upgrade_timeout_seconds,
}

-- `task.status in (PENDING, RUNNING)`
unfoldable pub is_cancellable : TaskStatus → Bool
is_cancellable TaskStatus.pending = true
is_cancellable TaskStatus.running = true
is_cancellable TaskStatus.completed = false
is_cancellable TaskStatus.failed = false
is_cancellable TaskStatus.cancelled = false

-- `TaskResult.status.in_(["pending", "sent"])`
abbrev pub is_open : TaskResult → Bool
is_open r = r.status == "pending" || r.status == "sent"

abbrev pub cancel_result : ℕ → TaskResult → TaskResult
cancel_result now r = record r { status = "cancelled"; finished_at = some now }

-- The writes of `cancel_task`.
unfoldable pub cancel_rows : ℕ → String → Db → Db
cancel_rows now task_id db = record db {
  tasks = update_where (has_task_id task_id) (set_status TaskStatus.cancelled) db.tasks;
  results = update_where (λ r. of_task task_id r && is_open r) (cancel_result now) db.results;
}

-- `cancel_task` after the search; `fresh` is the id of the audit entry.
unfoldable pub cancel_found :
    String → ℕ → String → String → Db → Result (Option Task) → Result String × Db
unfolding cancel_rows log_audit is_cancellable
cancel_found fresh now username task_id db (err e) = (err e, db)
cancel_found fresh now username task_id db (ok none) = (err (http 404 "Task not found"), db)
cancel_found fresh now username task_id db (ok (some task)) =
    if is_cancellable task.status
    then (
      ok "cancelled",
      let db' = cancel_rows now task_id db in
          record db' {
            audits =
                log_audit fresh now "task_cancel"
                  (record {
                    username = some username;
                    target = some task_id;
                    detail = none;
                    ip_address = none;
                  })
                  db'.audits;
          },
    )
    else (err (http 400 "Task cannot be cancelled"), db)

-- `POST /api/tasks/{task_id}/cancel`
unfoldable pub cancel_task : String → ℕ → String → String → Db → Result String × Db
unfolding cancel_found
cancel_task fresh now username task_id db =
    cancel_found fresh now username task_id db
      (scalar_one_or_none (select (has_task_id task_id) db.tasks))

-- `tr.started_at and tr.started_at < cutoff`, with the timeout brought to the other side
unfoldable pub is_overdue : ℕ → TaskResult → Bool
is_overdue now r = is_open r && (elim r.started_at [
  | none ↦ false
  | some t ↦ ltb (t + upgrade_timeout_seconds * second) now
])

abbrev pub time_out : ℕ → TaskResult → TaskResult
time_out now r = record r {
  status = "timeout";
  output = some "upgrade timed out (agent did not report back)";
  finished_at = some now;
}

-- The fallback of `get_task` for an upgrade that runs.
unfoldable pub time_out_upgrade : ℕ → Task → Db → Db
unfolding is_overdue
time_out_upgrade now task db =
    let late = λ (r : TaskResult). of_task task.id r && is_overdue now r in
    if any_row late db.results
    then record db {
      results = update_where late (time_out now) db.results;
      tasks = update_where (has_task_id task.id) (set_status TaskStatus.failed) db.tasks;
    }
    else db

-- `task.task_type == UPGRADE and task.status == RUNNING`
unfoldable pub is_running_upgrade : Task → Bool
is_running_upgrade task = elim task.task_type [
  | TaskType.upgrade ↦ elim task.status [ TaskStatus.running ↦ true | _ ↦ false ]
  | _ ↦ false
]

-- The writes of `GET /api/tasks/{task_id}` on a task that is found.
unfoldable pub refresh_task : ℕ → Task → Db → Db
unfolding time_out_upgrade is_running_upgrade
refresh_task now task db = if is_running_upgrade task then time_out_upgrade now task db else db
