-- ===== src/Tasks/Timeout.antt =====
-- The timeout of an upgrade that runs.
use batch_shutdown_assistant.Prelude.{ℕ, String, ◌≡◌, ◌≢◌, ◌⊎◌, Bool, ◌&&◌, some, arith}
use batch_shutdown_assistant.Models.{Task, TaskResult, TaskType, TaskStatus, Db}
use batch_shutdown_assistant.Tasks.{of_task}
use batch_shutdown_assistant.Tasks.Lifecycle.{is_overdue, refresh_task}

-- Reading a task that is no running upgrade writes nothing.
pub refresh_task-other :
    (now : ℕ) (task : Task) (db : Db)
    → (task.task_type ≢ TaskType.upgrade) ⊎ (task.status ≢ TaskStatus.running)
    → refresh_task now task db ≡ db
unfolding refresh_task
refresh_task-other now task db other = ground arith

abbrev pub late : ℕ → String → TaskResult → Bool
late now task_id r = of_task task_id r && is_overdue now r

-- What the end of such a result writes.
abbrev pub end_late : ℕ → TaskResult → TaskResult
end_late now r = record r {
  status = "timeout";
  output = some "upgrade timed out (agent did not report back)";
  finished_at = some now;
}
