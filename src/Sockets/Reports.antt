-- ===== src/Sockets/Reports.antt =====
-- What the message of an agent does to the results and the tasks, in any order with `create_task`.
use batch_shutdown_assistant.Prelude.{
  ℕ, String, ◌≡◌, ◌≢◌, refl, sym, ap, ◌∙◌, inl, inr, Bool, true, not, ◌||◌, Option, none, some,
  List, [], ◌∷◌, select, update_where, any_row, all_rows, ok, scalar_one_or_none, arith, eq_iff,
  eq_refl, Bool-cases, ◌==◌,
}
use batch_shutdown_assistant.Models.{TaskResult, TaskStatus, Db}
use batch_shutdown_assistant.Devices.Rows.{scalar-eq-some}
use batch_shutdown_assistant.Tasks.{
  has_task_id, has_result_id, of_task, set_status, settle, close_task,
}
use batch_shutdown_assistant.World.{World}
use batch_shutdown_assistant.Sockets.{
  final_status, sync_with, sync_parent_task, Report, Message, get_or_default, store_report,
  write_result, limit_output, store_sysinfo, report_result, report_found, receive_for, receive,
}
use batch_shutdown_assistant.Sockets.Parent.{is_success, has_ended}

module _ (task_id : String) where
  pub sync_with-results :
      (rs : List TaskResult) (db : Db) → (sync_with task_id rs db).results ≡ db.results
  unfolding sync_with
  sync_with-results [] db = refl
  sync_with-results (r ∷ rs) db = ground arith

  sync_with-tasks :
      (rs : List TaskResult) (db db' : Db)
      → db.tasks ≡ db'.tasks
      → (sync_with task_id rs db).tasks ≡ (sync_with task_id rs db').tasks
  unfolding sync_with
  sync_with-tasks [] db db' e = e
  sync_with-tasks (r ∷ rs) db db' e = ground arith

  -- A task all of whose results succeeded is completed.
  sync_with-success :
      (rs : List TaskResult) (db : Db)
      → all_rows is_success rs ≡ true
      → rs ≢ []
      → sync_with task_id rs db ≡ record db {
        tasks = update_where (has_task_id task_id) (set_status TaskStatus.completed) db.tasks;
      }
  unfolding sync_with final_status
  sync_with-success [] db h ne = absurd (ne refl)
  sync_with-success (r ∷ rs) db h ne = rw (ended (r ∷ rs) h, h) refl
    where
      ended : (us : List TaskResult) → all_rows is_success us ≡ true → all_rows has_ended us ≡ true
      ended [] e = refl
      ended (u ∷ us) e = ground (arith, ended us)

-- Where all results but the written one succeeded, and the new one did, all have succeeded.
all_written :
    (t k : String) (new : TaskResult) (rs : List TaskResult)
    → is_success new ≡ true
    → all_rows (λ u. not (of_task t u) || has_result_id k u || is_success u) rs ≡ true
    → all_rows is_success (select (of_task t) (update_where (has_result_id k) (λ _. new) rs)) ≡ true
all_written t k new [] good h = refl
all_written t k new (r ∷ rs) good h = ground (arith, all_written t k new rs good)

some_written :
    (t k : String) (new : TaskResult) (rs : List TaskResult)
    → of_task t new ≡ true
    → any_row (has_result_id k) rs ≡ true
    → select (of_task t) (update_where (has_result_id k) (λ _. new) rs) ≢ []
some_written t k new [] own h = λ e. cc
some_written t k new (r ∷ rs) own h = λ e. ground (arith, some_written t k new rs own)

any_row-select :
    (k : String) (rs : List TaskResult) {r : TaskResult}
    → select (has_result_id k) rs ≡ r ∷ []
    → (any_row (has_result_id k) rs ≡ true) × (r.id ≡ k)
any_row-select k [] h = absurd (cc h)
any_row-select k (s ∷ rs) {r} h = elim (Bool-cases (s.id == k)) [
  | inl same ↦ (rw same refl, let e : s ≡ r = ground arith in rw e at ((eq_iff s.id k).0 same))
  | inr other ↦ let (some_row, id) = any_row-select k rs (rw other at h) in (rw other some_row, id)
]

store_report-keeps :
    (now : ℕ) (device_id : String) (o : Option Report) (db : Db)
    → ((store_report now device_id o db).results ≡ db.results)
      × ((store_report now device_id o db).tasks ≡ db.tasks)
unfolding store_report
store_report-keeps now device_id none db = (refl, refl)
store_report-keeps now device_id (some r) db = ground arith

module _ (loads : String → Option Report) (delivers : ℕ → Bool) where
  pub store_sysinfo-keeps :
      (now : ℕ) (device_id status output : String) (db : Db)
      → ((store_sysinfo loads now device_id status output db).results ≡ db.results)
        × ((store_sysinfo loads now device_id status output db).tasks ≡ db.tasks)
  unfolding store_sysinfo
  store_sysinfo-keeps now device_id status output db =
      ground (arith, store_report-keeps now device_id (loads output) db)

  -- The results after a message for `r`.
  abbrev pub written : ℕ → Message → TaskResult → Db → List TaskResult
  written now msg r db = update_where (has_result_id r.id) (λ _. write_result now msg r) db.results

  abbrev stored : ℕ → Message → TaskResult → Db → Db
  stored now msg r db = record db { results = written now msg r db }

  informed : ℕ → String → Message → TaskResult → Db → Db
  informed now device_id msg r db =
      store_sysinfo loads now device_id (get_or_default msg.status "unknown")
        (limit_output (get_or_default msg.output "")) (stored now msg r db)

  informed-keeps :
      (now : ℕ) (device_id : String) (msg : Message) (r : TaskResult) (db : Db)
      → ((informed now device_id msg r db).results ≡ written now msg r db)
        × ((informed now device_id msg r db).tasks ≡ db.tasks)
  unfolding informed
  informed-keeps now device_id msg r db =
      store_sysinfo-keeps now device_id (get_or_default msg.status "unknown")
        (limit_output (get_or_default msg.output "")) (stored now msg r db)

  -- The results and the tasks that a report leaves.
  pub report_result-results :
      (now : ℕ) (device_id command_id : String) (msg : Message) (r : TaskResult) (w : World)
      → (report_result loads delivers now device_id command_id msg r w).db.results
        ≡ written now msg r w.db
  unfolding report_result sync_parent_task informed
  report_result-results now device_id command_id msg r w =
      let db = informed now device_id msg r w.db in
      sync_with-results r.task_id (select (of_task r.task_id) db.results) db
      ∙ (informed-keeps now device_id msg r w.db).0

  pub report_result-tasks :
      (now : ℕ) (device_id command_id : String) (msg : Message) (r : TaskResult) (w : World)
      → (report_result loads delivers now device_id command_id msg r w).db.tasks
        ≡ (sync_with r.task_id (select (of_task r.task_id) (written now msg r w.db)) w.db).tasks
  unfolding report_result sync_parent_task informed
  report_result-tasks now device_id command_id msg r w =
      let db = informed now device_id msg r w.db in
      let (results, tasks) = informed-keeps now device_id msg r w.db in
      sync_with-tasks r.task_id (select (of_task r.task_id) db.results) db w.db tasks
      ∙ ap
          (λ (rs : List TaskResult).
            (sync_with r.task_id (select (of_task r.task_id) rs) w.db).tasks)
          results

  module _ (now : ℕ) (msg : Message) (w : World) (k : String) {r : TaskResult}
      (named : msg.command_id ≡ some k) (set : k ≢ "")
      (found : scalar_one_or_none (select (has_result_id k) w.db.results) ≡ ok (some r)) where
    received :
        (device_id : String)
        → receive loads delivers now device_id msg w
          ≡ report_result loads delivers now device_id k msg r w
    unfolding receive receive_for report_found
    received device_id = rw named (rw found (ground (arith, eq_iff k "")))

    -- A message that names a result is accepted from the socket of any agent: whichever device sends
    -- it, it writes the same results and the same tasks.
    sender_does_not_matter :
        (device_id device_id' : String)
        → ((receive loads delivers now device_id msg w).db.results
            ≡ (receive loads delivers now device_id' msg w).db.results)
          × ((receive loads delivers now device_id msg w).db.tasks
              ≡ (receive loads delivers now device_id' msg w).db.tasks)
    sender_does_not_matter d d' =
        rw (received d, received d')
          (
            report_result-results now d k msg r w ∙ sym (report_result-results now d' k msg r w),
            report_result-tasks now d k msg r w ∙ sym (report_result-tasks now d' k msg r w),
          )

    -- The result that a message names gets its status, the output and the time; no other result
    -- changes.
    pub receive-results :
        (device_id : String)
        → (receive loads delivers now device_id msg w).db.results
          ≡ update_where (has_result_id r.id) (λ _. write_result now msg r) w.db.results
    receive-results d = rw (received d) (report_result-results now d k msg r w)

    -- When a message reports the success of a result, and every other result of its task has
    -- succeeded, the task is completed, whatever its status was: a cancelled task is completed too.
    pub last_success_completes :
        (device_id : String)
        → msg.status ≡ some "success"
        → all_rows
            (λ u. not (of_task r.task_id u) || has_result_id r.id u || is_success u)
            w.db.results
          ≡ true
        → (receive loads delivers now device_id msg w).db.tasks
          ≡ update_where (has_task_id r.task_id) (set_status TaskStatus.completed) w.db.tasks
    last_success_completes d success others = rw (received d) (
        report_result-tasks now d k msg r w
        ∙ ap (λ (db : Db). db.tasks)
            (sync_with-success r.task_id (select (of_task r.task_id) (written now msg r w.db)) w.db
              (all_written r.task_id r.id (write_result now msg r) w.db.results
                (unfold write_result in rw success refl) others)
              (some_written r.task_id r.id (write_result now msg r) w.db.results
                (unfold write_result in eq_refl r.task_id) there)))
      where
        there : any_row (has_result_id r.id) w.db.results ≡ true
        there =
            let (some_row, id) =
              any_row-select k w.db.results
                (scalar-eq-some (select (has_result_id k) w.db.results) found) in
            rw id some_row

-- A report that arrives before `create_task` commits its outcomes is lost: the commit writes "sent"
-- over the status of the result.
early_report_is_lost :
    (loads : String → Option Report) (delivers : ℕ → Bool) (now later : ℕ) (device_id : String)
    (msg : Message) (k task_id : String) (w : World)
    → all_rows
        (λ u. not (has_result_id k u) || u.status == "sent")
        (close_task later task_id
          ((k, true) ∷ [])
          (receive loads delivers now device_id msg w).db).results
      ≡ true
unfolding close_task
early_report_is_lost loads delivers now later device_id msg k task_id w =
    all_sent (receive loads delivers now device_id msg w).db.results
  where
    all_sent :
        (rs : List TaskResult)
        → all_rows
            (λ u. not (has_result_id k u) || u.status == "sent")
            (update_where (has_result_id k) (settle later true) rs)
          ≡ true
    all_sent [] = refl
    all_sent (r ∷ rs) = elim (Bool-cases (has_result_id k r)) [
      | inl same ↦ rw same (rw same (all_sent rs))
      | inr other ↦ rw other (rw other (all_sent rs))
    ]
