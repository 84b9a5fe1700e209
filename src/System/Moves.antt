-- ===== src/System/Moves.antt =====
-- Each handler that writes tasks or results keeps the ids of the rows, keeps the tasks that have
-- ended, and ends a task whose results it ends.
use batch_shutdown_assistant.Prelude.{
  ℕ, String, ◌≡◌, ◌∙◌, ◌⊎◌, refl, sym, ap, Bool, true, not, ◌&&◌, ◌||◌, List, [], ◌∷◌, select,
  update_where, any_row, all_rows, arith, eq_iff, Bool-cases, inl, inr, ◌==◌, Option, none, some,
  Result, ok, err, scalar_one_or_none,
}
use batch_shutdown_assistant.Models.{Task, TaskResult, TaskStatus, Db}
use batch_shutdown_assistant.Tasks.{has_task_id, of_task, set_status}
use batch_shutdown_assistant.Tasks.Lifecycle.{
  is_cancellable, is_open, cancel_result, cancel_rows, cancel_found, cancel_task, is_overdue,
  time_out, time_out_upgrade, is_running_upgrade, refresh_task,
}
use batch_shutdown_assistant.System.Rows.{
  keys, key_of, ids, map-update_where, is_ended, has_ended, has_ended-set, is_over, is_over-other,
}

-- The tables after a step against those before it.
pub record Kept (db db' : Db) : Type 0 where
  pub same_ids : ids db'.tasks ≡ ids db.tasks
  pub same_keys : keys db'.results ≡ keys db.results
  pub ended : (id : String) → has_ended id db.tasks ≡ true → has_ended id db'.tasks ≡ true
  pub over :
      (id : String)
      → is_over id db'.results ≡ true
      → (is_over id db.results ≡ true) ⊎ (has_ended id db'.tasks ≡ true)

pub Kept-same : (db db' : Db) → db'.tasks ≡ db.tasks → db'.results ≡ db.results → Kept db db'
Kept-same db db' tasks results = record {
  same_ids = ap ids tasks;
  same_keys = ap keys results;
  ended = λ id h. rw tasks h;
  over = λ id h. inl (rw results at h);
}

-- A task that is set to a status keeps its id.
pub ids-set :
    (status : TaskStatus) (k : String) (ts : List Task)
    → ids (update_where (has_task_id k) (set_status status) ts) ≡ ids ts
ids-set status k ts =
    map-update_where (λ (t : Task). t.id) (has_task_id k) (set_status status) ts (λ t. refl)

-- A step that ends the task `k` and changes results of that task alone.
pub Kept-end :
    (status : TaskStatus) (k : String) (p : TaskResult → Bool) (f : TaskResult → TaskResult)
    (db db' : Db)
    → is_ended status ≡ true
    → ((r : TaskResult) → key_of (f r) ≡ key_of r)
    → all_rows (λ r. not (p r) || of_task k r) db.results ≡ true
    → db'.tasks ≡ update_where (has_task_id k) (set_status status) db.tasks
    → db'.results ≡ update_where p f db.results
    → Kept db db'
Kept-end status k p f db db' e same own tasks results = record {
  same_ids = ap ids tasks ∙ ids-set status k db.tasks;
  same_keys = ap keys results ∙ map-update_where key_of p f db.results same;
  ended = λ id h. rw tasks (has_ended-set status k id db.tasks e (ground (arith, h)));
  over = λ id h. elim (Bool-cases (k == id)) [
    | inl mine ↦ inr (rw tasks (has_ended-set status k id db.tasks e (ground (arith, mine))))
    | inr other ↦ inl (
        sym (
          is_over-other k id p f db.results (λ eq. ground (arith, eq_iff k id))
            (λ r. ap (λ x. x.1) (same r)) own)
        ∙ ap (is_over id) (sym results)
        ∙ h)
  ];
}

own_rows :
    (k : String) (q : TaskResult → Bool) (rs : List TaskResult)
    → all_rows (λ r. not (of_task k r && q r) || of_task k r) rs ≡ true
own_rows k q [] = refl
own_rows k q (r ∷ rs) = ground (arith, own_rows k q rs)

Kept-cancel_found :
    (fresh : String) (now : ℕ) (username task_id : String) (db : Db) (found : Result (Option Task))
    → Kept db (cancel_found fresh now username task_id db found).1
unfolding cancel_found cancel_rows is_ended
Kept-cancel_found fresh now username task_id db (err e) = Kept-same db db refl refl
Kept-cancel_found fresh now username task_id db (ok none) = Kept-same db db refl refl
Kept-cancel_found fresh now username task_id db (ok (some t)) =
    elim (Bool-cases (is_cancellable t.status)) [
      | inl live ↦ rw live (
          Kept-end TaskStatus.cancelled task_id (λ r. of_task task_id r && is_open r)
            (cancel_result now) db _ refl (λ r. refl) (own_rows task_id is_open db.results) refl
            refl)
      | inr done ↦ rw done (Kept-same db db refl refl)
    ]

pub Kept-cancel_task :
    (fresh : String) (now : ℕ) (username task_id : String) (db : Db)
    → Kept db (cancel_task fresh now username task_id db).1
unfolding cancel_task
Kept-cancel_task fresh now username task_id db =
    Kept-cancel_found fresh now username task_id db
      (scalar_one_or_none (select (has_task_id task_id) db.tasks))

Kept-time_out : (now : ℕ) (task : Task) (db : Db) → Kept db (time_out_upgrade now task db)
unfolding time_out_upgrade is_ended
Kept-time_out now task db =
    let late = λ (r : TaskResult). of_task task.id r && is_overdue now r in
    elim (Bool-cases (any_row late db.results)) [
      | inl some_late ↦ rw some_late (
          Kept-end TaskStatus.failed task.id late (time_out now) db _ refl (λ r. refl)
            (own_rows task.id (is_overdue now) db.results) refl refl)
      | inr in_time ↦ rw in_time (Kept-same db db refl refl)
    ]

pub Kept-refresh_task : (now : ℕ) (task : Task) (db : Db) → Kept db (refresh_task now task db)
unfolding refresh_task
Kept-refresh_task now task db = elim (Bool-cases (is_running_upgrade task)) [
  | inl running ↦ rw running (Kept-time_out now task db)
  | inr other ↦ rw other (Kept-same db db refl refl)
]
