-- ===== src/Sockets/Parent.antt =====
-- The status that a task gets from its results.
use batch_shutdown_assistant.Prelude.{
  String, ◌≡◌, refl, Bool, true, false, not, ◌||◌, ◌&&◌, List, [], ◌∷◌, select, any_row, all_rows,
  arith, eq_iff, ◌==◌, if◌then◌else◌,
}
use batch_shutdown_assistant.Models.{TaskResult, TaskStatus, Db}
use batch_shutdown_assistant.Tasks.{of_task}
use batch_shutdown_assistant.Sockets.{is_terminal, final_status, sync_with, sync_parent_task}

abbrev pub is_lost : TaskResult → Bool
is_lost r = r.status == "failed" || r.status == "timeout"

abbrev pub is_cancelled : TaskResult → Bool
is_cancelled r = r.status == "cancelled"

abbrev pub is_success : TaskResult → Bool
is_success r = r.status == "success"

abbrev pub has_ended : TaskResult → Bool
has_ended r = is_terminal r.status

-- The four terminal statuses are exclusive.
module _ (r : TaskResult) where
  success_alone : is_success r ≡ true → (is_lost r ≡ false) × (is_cancelled r ≡ false)
  success_alone h = rw ((eq_iff r.status "success").0 h) (refl, refl)

  cancelled_alone : is_cancelled r ≡ true → (is_lost r ≡ false) × (is_success r ≡ false)
  cancelled_alone h = rw ((eq_iff r.status "cancelled").0 h) (refl, refl)

all_success :
    (rs : List TaskResult)
    → all_rows has_ended rs ≡ true
    → all_rows is_success rs ≡ (not (any_row is_lost rs) && not (any_row is_cancelled rs))
all_success [] h = refl
all_success (r ∷ rs) h = ground (arith, all_success rs, success_alone r)

all_cancelled_or_success :
    (rs : List TaskResult)
    → all_rows has_ended rs ≡ true
    → all_rows (λ r. is_cancelled r || is_success r) rs ≡ not (any_row is_lost rs)
all_cancelled_or_success [] h = refl
all_cancelled_or_success (r ∷ rs) h =
    ground (arith, all_cancelled_or_success rs, success_alone r, cancelled_alone r)

-- Once all results have ended, the task has failed if one of them failed or timed out; otherwise it
-- is cancelled if one of them was; otherwise it is completed.
pub final_status_lem :
    (rs : List TaskResult)
    → all_rows has_ended rs ≡ true
    → final_status rs ≡ (
        if any_row is_lost rs
        then TaskStatus.failed
        else if any_row is_cancelled rs
        then TaskStatus.cancelled
        else TaskStatus.completed)
unfolding final_status
final_status_lem rs h = rw (all_success rs h, all_cancelled_or_success rs h) (ground arith)

-- A task one of whose results has not ended is left alone, and so are all other rows.
pub sync_parent_task_waits :
    (task_id : String) (db : Db)
    → all_rows has_ended (select (of_task task_id) db.results) ≡ false
    → sync_parent_task task_id db ≡ db
unfolding sync_parent_task
sync_parent_task_waits task_id db h = waits (select (of_task task_id) db.results) h
  where
    waits : (rs : List TaskResult) → all_rows has_ended rs ≡ false → sync_with task_id rs db ≡ db
    waits [] e = refl
    waits (r ∷ rs) e = rw e refl
