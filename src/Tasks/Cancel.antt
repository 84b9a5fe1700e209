-- ===== src/Tasks/Cancel.antt =====
-- Cancellation.
use batch_shutdown_assistant.Prelude.{
  ℕ, String, ◌≡◌, refl, ◌⊎◌, inl, inr, false, not, ◌&&◌, Option, none, some, List, [], ◌∷◌, map,
  select, update_where, any_row, Result, Error, ok, err, http, scalar_one_or_none, arith,
  Bool-cases, any_row-update_where, select-update_where,
}
use batch_shutdown_assistant.Models.{Task, TaskResult, TaskStatus, Db}
use batch_shutdown_assistant.Devices.Rows.{scalar-eq-some}
use batch_shutdown_assistant.Tasks.{has_task_id, of_task, set_status}
use batch_shutdown_assistant.Tasks.Lifecycle.{
  is_open, cancel_result, cancel_rows, cancel_found, cancel_task,
}

module _ (fresh : String) (now : ℕ) (username task_id : String) (db : Db) where
  abbrev found : Result (Option Task)
  found = scalar_one_or_none (select (has_task_id task_id) db.tasks)

  abbrev cancelled_db : Result String × Db
  cancelled_db = cancel_task fresh now username task_id db

  -- A cancellation that raises changes nothing: an unknown task is answered with 404, a task that
  -- has ended with 400.
  pub cancel_task_error_unchanged : {e : Error} → cancelled_db.0 ≡ err e → cancelled_db.1 ≡ db
  unfolding cancel_task
  cancel_task_error_unchanged h = ground arith

  cancel_found-ok :
      (r : Result (Option Task))
      → (cancel_found fresh now username task_id db r).0 ≡ ok "cancelled"
      → (t : Task) × (r ≡ ok (some t))
        × ((t.status ≡ TaskStatus.pending) ⊎ (t.status ≡ TaskStatus.running))
  unfolding cancel_found
  cancel_found-ok (err e) h = cc
  cancel_found-ok (ok none) h = cc
  cancel_found-ok (ok (some t)) h = (t, refl, ground arith)

  -- A cancellation succeeds only for a task that is pending or running.
  pub cancel_task_needs_live_task :
      cancelled_db.0 ≡ ok "cancelled"
      → (t : Task) × (found ≡ ok (some t))
        × ((t.status ≡ TaskStatus.pending) ⊎ (t.status ≡ TaskStatus.running))
  unfolding cancel_task
  cancel_task_needs_live_task h = cancel_found-ok found h

-- After the writes of a cancellation no result of the task is open.
no_open_left :
    (now : ℕ) (task_id : String) (rs : List TaskResult)
    → any_row
        (λ r. of_task task_id r && is_open r)
        (update_where (λ r. of_task task_id r && is_open r) (cancel_result now) rs)
      ≡ false
no_open_left now task_id rs =
    any_row-update_where (λ r. of_task task_id r && is_open r) (cancel_result now) rs
      (λ r h. ground arith)

-- They leave the results of the other tasks.
other_results :
    (now : ℕ) (task_id : String) (rs : List TaskResult)
    → select
        (λ r. not (of_task task_id r))
        (update_where (λ r. of_task task_id r && is_open r) (cancel_result now) rs)
      ≡ select (λ r. not (of_task task_id r)) rs
other_results now task_id rs =
    select-update_where (λ r. of_task task_id r && is_open r) (λ r. not (of_task task_id r))
      (cancel_result now) rs (λ r h. ground arith)

-- Once a task is set to another status, the search finds it with that status.
found_again :
    (status : TaskStatus) (task_id : String) (ts : List Task) {t : Task}
    → scalar_one_or_none (select (has_task_id task_id) ts) ≡ ok (some t)
    → scalar_one_or_none
        (select (has_task_id task_id) (update_where (has_task_id task_id) (set_status status) ts))
      ≡ ok (some (set_status status t))
found_again status task_id ts {t} h =
    rw (selected ts) (rw (scalar-eq-some (select (has_task_id task_id) ts) h) refl)
  where
    selected :
        (us : List Task)
        → select (has_task_id task_id) (update_where (has_task_id task_id) (set_status status) us)
          ≡ map (set_status status) (select (has_task_id task_id) us)
    selected [] = refl
    selected (u ∷ us) = elim (Bool-cases (has_task_id task_id u)) [
      | inl same ↦ rw same (rw (same, selected us) refl)
      | inr other ↦ rw other (rw (other, selected us) refl)
    ]

cancel_found-writes :
    (fresh : String) (now : ℕ) (username task_id : String) (db : Db) (r : Result (Option Task))
    → (cancel_found fresh now username task_id db r).0 ≡ ok "cancelled"
    → let db' = (cancel_found fresh now username task_id db r).1 in
      (db'.results ≡ (cancel_rows now task_id db).results)
      × (db'.tasks ≡ (cancel_rows now task_id db).tasks)
unfolding cancel_found cancel_rows
cancel_found-writes fresh now username task_id db (err e) h = cc
cancel_found-writes fresh now username task_id db (ok none) h = cc
cancel_found-writes fresh now username task_id db (ok (some t)) h = ground arith

-- A cancellation that succeeds leaves no pending or sent result of the task, leaves the results of
-- the other tasks, and the task itself is found as cancelled, so that a second cancellation is
-- answered with 400 and changes nothing.
pub cancel_task_lem :
    (fresh fresh' : String) (now later : ℕ) (username username' task_id : String) (db : Db)
    → (cancel_task fresh now username task_id db).0 ≡ ok "cancelled"
    → let db' = (cancel_task fresh now username task_id db).1 in
      (any_row (λ r. of_task task_id r && is_open r) db'.results ≡ false)
      × (select (λ r. not (of_task task_id r)) db'.results
          ≡ select (λ r. not (of_task task_id r)) db.results)
      × (cancel_task fresh' later username' task_id db'
          ≡ (err (http 400 "Task cannot be cancelled"), db'))
unfolding cancel_task cancel_rows cancel_found
cancel_task_lem fresh fresh' now later username username' task_id db h =
    let r = scalar_one_or_none (select (has_task_id task_id) db.tasks) in
    let (results, tasks) = cancel_found-writes fresh now username task_id db r h in
    let (t, there, _) = cancel_found-ok fresh now username task_id db r h in
    (
      rw results (no_open_left now task_id db.results),
      rw results (other_results now task_id db.results),
      rw tasks (rw (found_again TaskStatus.cancelled task_id db.tasks there) refl),
    )
