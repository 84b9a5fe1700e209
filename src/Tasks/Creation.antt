-- ===== src/Tasks/Creation.antt =====
-- The task, the results and the commands that `create_task` leaves.
use mathlib.Core.List.{append_assoc, append-nil}
use batch_shutdown_assistant.Prelude.{
  ℕ, ◌+◌, ◌<◌, String, ◌≡◌, refl, sym, ap, ◌∙◌, inl, inr, Bool, false, Option, none, some, List, [],
  ◌∷◌, ◌++◌, map, length, select, update_where, any_row, num_eq, lookup, Dict, Result, ok, err,
  http, concat, arith, eq_iff, eq_refl, Bool-cases, ◌==◌, if◌then◌else◌,
}
use batch_shutdown_assistant.Models.{
  Task, TaskResult, TaskType, TaskStatus, task_type_of, task_type_value,
}
use batch_shutdown_assistant.Manager.{Command, Frame, command, Manager, send_command, send_on}
use batch_shutdown_assistant.World.{World}
use batch_shutdown_assistant.Tasks.{
  TaskCreate, has_result_id, has_task_id, set_status, is_known, pending_results, command_params,
  dispatch_all, sent_count, create_task,
}
use batch_shutdown_assistant.Tasks.Dispatch.{
  is_reached, send_command_sound, outcomes_of, dispatch_all-outcomes, settled, Apart,
  settle_all-rows,
}

module _ (uuid : ℕ → String) (injective : (i j : ℕ) → uuid i ≡ uuid j → i ≡ j)
    (task_id : String) where
  later_ids :
      (i j : ℕ) (dids : List String)
      → i < j
      → any_row (has_result_id (uuid i)) (pending_results uuid j task_id dids) ≡ false
  unfolding pending_results
  later_ids i j [] h = refl
  later_ids i j (d ∷ dids) h = elim (Bool-cases (uuid j == uuid i)) [
    | inl same ↦ let e = injective j i ((eq_iff (uuid j) (uuid i)).0 same) in absurd (omega arith)
    | inr other ↦ rw other (later_ids i (j + 1) dids (omega arith))
  ]

  pending_results-Apart :
      (results : List TaskResult) (j : ℕ) (dids : List String)
      → ((i : ℕ) → any_row (has_result_id (uuid i)) results ≡ false)
      → Apart results (pending_results uuid j task_id dids)
  unfolding pending_results
  pending_results-Apart results j [] unused = tt
  pending_results-Apart results j (d ∷ dids) unused = (
    unused j,
    later_ids j (j + 1) dids (omega arith),
    pending_results-Apart results (j + 1) dids unused,
  )

sent_count-outcomes :
    (delivers : ℕ → Bool) (sockets : Dict ℕ) (uuid : ℕ → String) (j : ℕ) (task_id : String)
    (dids : List String)
    → sent_count (outcomes_of delivers sockets (pending_results uuid j task_id dids))
      ≡ length (select (is_reached delivers sockets) dids)
unfolding sent_count outcomes_of pending_results
sent_count-outcomes delivers sockets uuid j task_id [] = refl
sent_count-outcomes delivers sockets uuid j task_id (d ∷ dids) =
    ground (arith, sent_count-outcomes delivers sockets uuid (j + 1) task_id dids)

-- The frames of a dispatch: to each device that is reached the command with its result's id.
abbrev pub frame_to :
    (ℕ → Bool)
    → TaskType
    → Option String
    → TaskResult
    → Option ℕ
    → List (ℕ × Frame)
    → List (ℕ × Frame)
frame_to delivers t params tr none rest = rest
frame_to delivers t params tr (some ws) rest =
    if delivers ws
    then (
      ws,
      command (record { id = tr.id; action = task_type_value t; params = command_params params }),
    )
      ∷ rest
    else rest

unfoldable pub frames :
    (ℕ → Bool) → Dict ℕ → TaskType → Option String → List TaskResult → List (ℕ × Frame)
frames delivers sockets t params [] = []
frames delivers sockets t params (tr ∷ trs) =
    frame_to delivers t params tr (lookup tr.device_id sockets)
      (frames delivers sockets t params trs)

module _ (delivers : ℕ → Bool) (t : TaskType) (params : Option String) where
  abbrev command_of : TaskResult → Command
  command_of tr = record { id = tr.id; action = task_type_value t; params = command_params params }

  sent-send_on :
      (tr : TaskResult) (o : Option ℕ) (rest : List (ℕ × Frame)) (m : Manager)
      → (send_on delivers o (command_of tr) m).1.sent ++ rest
        ≡ m.sent ++ frame_to delivers t params tr o rest
  unfolding send_on
  sent-send_on tr none rest m = refl
  sent-send_on tr (some ws) rest m = elim (Bool-cases (delivers ws)) [
    | inl up ↦ rw up (append_assoc m.sent ((ws, command (command_of tr)) ∷ []) rest)
    | inr down ↦ rw down refl
  ]

  dispatch_all-sent :
      (trs : List TaskResult) (m : Manager)
      → (dispatch_all delivers t params trs m).1.sent
        ≡ m.sent ++ frames delivers m.active_connections t params trs
  unfolding dispatch_all frames send_command
  dispatch_all-sent [] m = sym (append-nil m.sent)
  dispatch_all-sent (tr ∷ trs) m =
      let m' = (send_command delivers tr.device_id (command_of tr) m).1 in
      let same = (send_command_sound delivers tr.device_id (command_of tr) m).1 in
      dispatch_all-sent trs m'
      ∙ ap (λ s. m'.sent ++ frames delivers s t params trs) same
      ∙ sent-send_on tr (lookup tr.device_id m.active_connections)
          (frames delivers m.active_connections t params trs) m

update_where-last :
    (f : Task → Task) (ts : List Task) (t : Task)
    → any_row (has_task_id t.id) ts ≡ false
    → update_where (has_task_id t.id) f (ts ++ t ∷ []) ≡ ts ++ f t ∷ []
update_where-last f [] t new = rw (eq_refl t.id) refl
update_where-last f (s ∷ ts) t new = ground (arith, update_where-last f ts t)

-- What the code assumes of `uuid4()`: no two calls of a request return the same id, and none
-- returns an id that is in the tables.
module _ (dumps : Option String → List String → String) (delivers : ℕ → Bool) (now : ℕ)
    (username : String) (uuid : ℕ → String) (payload : TaskCreate) (w : World) where
  abbrev created : Result TaskStatus × World
  created = create_task dumps delivers uuid now username payload w

  abbrev valid : List String
  valid = select (is_known w.db.devices) payload.device_ids

  abbrev sockets : Dict ℕ
  sockets = w.manager.active_connections

  -- A task type that `TaskType` does not accept is answered with status 400, and changes nothing.
  pub create_task-unknown :
      task_type_of payload.task_type ≡ none
      → created ≡ (err (http 400 (concat "不支持的任务类型: " payload.task_type)), w)
  unfolding create_task
  create_task-unknown h = rw h refl

  -- With a task type that is accepted, `create_task` adds one result for each requested id that is
  -- in the device table, in the order of the request: "sent" if the device has a socket that
  -- delivers, "failed" with the output "Agent offline" if not. No other result changes, and each
  -- device that is reached has got one command, with its result's id.
  pub create_task-results :
      {t : TaskType}
      → ((i j : ℕ) → uuid i ≡ uuid j → i ≡ j)
      → ((i : ℕ) → any_row (has_result_id (uuid i)) w.db.results ≡ false)
      → task_type_of payload.task_type ≡ some t
      → let rows = pending_results uuid 1 (uuid 0) valid in
        (created.1.db.results ≡ w.db.results ++ map (settled delivers sockets now) rows)
        × (created.1.manager.sent ≡ w.manager.sent ++ frames delivers sockets t payload.params rows)
        × (created.1.db.devices ≡ w.db.devices)
  unfolding create_task
  create_task-results {t} injective unused h =
      let rows = pending_results uuid 1 (uuid 0) valid in
      rw h (
        rw (dispatch_all-outcomes delivers t payload.params rows w.manager).0 (
            settle_all-rows delivers sockets now w.db.results rows
              (pending_results-Apart uuid injective (uuid 0) w.db.results 1 valid unused)),
        dispatch_all-sent delivers t payload.params rows w.manager,
        refl,
      )

  abbrev reached : ℕ
  reached = length (select (is_reached delivers sockets) valid)

  abbrev final_status : TaskStatus
  final_status = if num_eq reached 0 then TaskStatus.failed else TaskStatus.running

  -- With a task type that is accepted, the task is added as running, or as failed if no device was
  -- reached; the same status is answered, and no other task changes.
  pub create_task-task :
      {t : TaskType}
      → any_row (has_task_id (uuid 0)) w.db.tasks ≡ false
      → task_type_of payload.task_type ≡ some t
      → (created.0 ≡ ok final_status)
        × (created.1.db.tasks
            ≡ w.db.tasks
              ++ record {
                id = uuid 0;
                task_type = t;
                status = final_status;
                params = payload.params;
                created_at = now;
              }
                ∷ [])
  unfolding create_task
  create_task-task {t} unused h =
      let rows = pending_results uuid 1 (uuid 0) valid in
      rw h (
        rw (dispatch_all-outcomes delivers t payload.params rows w.manager).0
            (rw (sent_count-outcomes delivers sockets uuid 1 (uuid 0) valid) refl),
        rw (dispatch_all-outcomes delivers t payload.params rows w.manager).0 (
            rw (sent_count-outcomes delivers sockets uuid 1 (uuid 0) valid)
              (elim (Bool-cases (num_eq reached 0)) [
                | inl all_off ↦ rw all_off (
                    ap (update_where (has_task_id (uuid 0)) (set_status TaskStatus.failed))
                      (update_where-last (set_status TaskStatus.running) w.db.tasks _ unused)
                    ∙ update_where-last (set_status TaskStatus.failed) w.db.tasks _ unused)
                | inr some_on ↦
                    rw some_on
                      (update_where-last (set_status TaskStatus.running) w.db.tasks _ unused)
              ])),
      )
