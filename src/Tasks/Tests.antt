-- ===== src/Tasks/Tests.antt =====
-- Tests of server/api/task_routes.py. The ids of a request are "u", "uu" and so on.
use Prim.Native.String as Text
use batch_shutdown_assistant.Prelude.{
  ℕ, zero, suc, ◌≡◌, refl, ap, String, len, Bool, false, not, ◌&&◌, Option, none, some, List, [],
  ◌∷◌, map, any_row, select, length, num_eq, ok, err, http, arith, if◌then◌else◌,
}
use batch_shutdown_assistant.Models.{
  new_device, Task, TaskResult, TaskType, TaskStatus, task_type_of, Db, empty_db,
}
use batch_shutdown_assistant.Manager.{new_manager}
use batch_shutdown_assistant.World.{World}
use batch_shutdown_assistant.Tasks.{TaskCreate, of_task, is_known, pending_results, create_task}
use batch_shutdown_assistant.Tasks.Lifecycle.{is_open, cancel_task}
use batch_shutdown_assistant.Tasks.Dispatch.{is_reached, settled}
use batch_shutdown_assistant.Tasks.Creation.{frames, create_task-results}
use batch_shutdown_assistant.Tasks.Cancel.{cancel_task_lem}
use batch_shutdown_assistant.Tasks.Views.{
  no_params, TaskRow, newest_tasks, list_tasks, task_description,
}
use batch_shutdown_assistant.Tasks.Addresses.{task_addresses, list_tasks-addresses}

abbrev uuid : ℕ → String
uuid zero = "u"
uuid (suc n) = Text.◌∷◌ "u" (uuid n)

len-uuid : (n : ℕ) → len (uuid n) ≡ suc n
len-uuid zero = refl
len-uuid (suc n) = ap suc (len-uuid n)

uuid_injective : (i j : ℕ) → uuid i ≡ uuid j → i ≡ j
uuid_injective i j e = omega (arith, len-uuid i, len-uuid j, ap len e)

abbrev delivers : ℕ → Bool
delivers ws = num_eq ws 1

abbrev dumps : Option String → List String → String
dumps params skipped = "{}"

-- Two devices, the first with a socket; a third is requested that is not there.
abbrev world : World
world = record {
  db = record empty_db { devices = new_device "d1" "t1" 0 ∷ new_device "d2" "t2" 0 ∷ [] };
  manager = record new_manager { active_connections = ("d1", 1) ∷ [] };
}

abbrev request : TaskCreate
request = record { task_type = "reboot"; device_ids = "d1" ∷ "d3" ∷ "d2" ∷ []; params = none }

abbrev valid : List String
valid = select (is_known world.db.devices) request.device_ids

abbrev rows : List TaskResult
rows = pending_results uuid 1 (uuid 0) valid

reboot : task_type_of "reboot" ≡ some TaskType.reboot
unfolding task_type_of
reboot = refl

create_task-results_example :
    let w = (create_task dumps delivers uuid 5 "admin" request world).1 in
    (w.db.results ≡ map (settled delivers world.manager.active_connections 5) rows)
    × (w.manager.sent ≡ frames delivers world.manager.active_connections TaskType.reboot none rows)
    × (w.db.devices ≡ world.db.devices)
create_task-results_example =
    create_task-results dumps delivers 5 "admin" uuid request world uuid_injective (λ i. refl)
      reboot

abbrev reached : ℕ
reached = length (select (is_reached delivers world.manager.active_connections) valid)

abbrev status : TaskStatus
status = if num_eq reached 0 then TaskStatus.failed else TaskStatus.running

-- An upgrade that was sent to one device at time 0.
abbrev upgrade : Task
upgrade = record {
  id = "t1";
  task_type = TaskType.upgrade;
  status = TaskStatus.running;
  params = none;
  created_at = 0;
}

abbrev sent : TaskResult
sent = record {
  id = "r1";
  task_id = "t1";
  device_id = "d1";
  status = "sent";
  output = none;
  started_at = some 0;
  finished_at = none;
}

abbrev upgrading : Db
upgrading = record empty_db { tasks = upgrade ∷ []; results = sent ∷ [] }

cancelled : (cancel_task "a1" 5 "admin" "t1" upgrading).0 ≡ ok "cancelled"
unfolding cancel_task
cancelled = refl

cancel_task_lem_example :
    let db' = (cancel_task "a1" 5 "admin" "t1" upgrading).1 in
    (any_row (λ r. of_task "t1" r && is_open r) db'.results ≡ false)
    × (select (λ r. not (of_task "t1" r)) db'.results ≡ [])
    × (cancel_task "a2" 6 "admin" "t1" db' ≡ (err (http 400 "Task cannot be cancelled"), db'))
cancel_task_lem_example = cancel_task_lem "a1" "a2" 5 6 "admin" "admin" "t1" upgrading cancelled

shutdown_text : task_description (λ s. s) TaskType.shutdown no_params ≡ "TaskType.SHUTDOWN"
unfolding task_description
shutdown_text = refl

abbrev shown_db : Db
shown_db = (create_task dumps delivers uuid 5 "admin" request world).1.db

list_tasks-addresses_example :
    map (λ (row : TaskRow). row.device_ips) (list_tasks (λ _. no_params) (λ s. s) shown_db)
    ≡ map (λ (t : Task). task_addresses shown_db t.id) (newest_tasks shown_db.tasks)
list_tasks-addresses_example = list_tasks-addresses (λ _. no_params) (λ s. s) shown_db
