-- ===== src/Tasks/Views.antt =====
-- server/api/task_routes.py: the task list and one task, as they are shown. `read_params` is
-- `json.loads` of the stored parameters, with the two entries that the description reads, as texts;
-- `strip` is `str.strip`. Tasks of one time are shown in the order of the table, which the code leaves
-- to the database; so with the rows of the join, which are taken in the order of the results.
use batch_shutdown_assistant.Prelude.{
  ℕ, String, concat, Bool, Option, none, some, List, [], ◌∷◌, ◌++◌, map, take, select, any_row, leb,
  sort_by, Dict, lookup, insert, Result, ok, err, http, ◌>>=◌, scalar_one_or_none, ◌==◌,
  if◌then◌else◌,
}
use batch_shutdown_assistant.Models.{
  Device, Task, TaskResult, TaskType, TaskStatus, task_type_value, Db,
}
use batch_shutdown_assistant.Devices.{has_id}
use batch_shutdown_assistant.Tasks.{has_task_id, of_task}
use batch_shutdown_assistant.Tasks.Lifecycle.{refresh_task}

pub record Params : Type 0 where
  pub version : Option String
  pub filename : Option String

abbrev pub no_params : Params
no_params = record { version = none; filename = none }

-- `params.get(key, default)` in an f-string
abbrev pub text_or : Option String → String → String
text_or none d = d
text_or (some s) d = s

-- `_task_description`: a type without a text of its own is shown as `str(task_type)`.
unfoldable pub task_description : (String → String) → TaskType → Params → String
task_description strip TaskType.upgrade p = concat "升级到 v" (text_or p.version "?")
task_description strip TaskType.sysprep p = "Sysprep 关机"
task_description strip TaskType.sysprep_reboot p = "Sysprep 重启"
task_description strip TaskType.hostmsg p = "弹出信息提示"
task_description strip TaskType.sysinfo p = "采集设备信息"
task_description strip TaskType.file_push p = strip (concat "分发文件 " (text_or p.filename ""))
task_description strip TaskType.shutdown p = "TaskType.SHUTDOWN"
task_description strip TaskType.reboot p = "TaskType.REBOOT"
task_description strip TaskType.status p = "TaskType.STATUS"

abbrev pub task_status_value : TaskStatus → String
task_status_value TaskStatus.pending = "pending"
task_status_value TaskStatus.running = "running"
task_status_value TaskStatus.completed = "completed"
task_status_value TaskStatus.failed = "failed"
task_status_value TaskStatus.cancelled = "cancelled"

-- `json.loads(t.params) if t.params else {}`
abbrev pub params_of : (String → Params) → Task → Params
params_of read_params t = elim t.params [
  | none ↦ no_params
  | some s ↦ if s == "" then no_params else read_params s
]

-- `order_by(Task.created_at.desc()).limit(100)`
unfoldable pub newest_tasks : List Task → List Task
newest_tasks tasks = take 100 (sort_by (λ (a b : Task). leb b.created_at a.created_at) tasks)

-- The row of the outer join for each device of a result, or one without an address.
abbrev pub joined_devices : String → List Device → List (String × Option String)
joined_devices tid [] = (tid, none) ∷ []
joined_devices tid (d ∷ ds) = map (λ (e : Device). (tid, e.ip)) (d ∷ ds)

abbrev pub joined_rows : List Device → List TaskResult → List (String × Option String)
joined_rows devices [] = []
joined_rows devices (r ∷ rs) =
    joined_devices r.task_id (select (has_id r.device_id) devices) ++ joined_rows devices rs

abbrev pub list_or_empty : Option (List String) → List String
list_or_empty none = []
list_or_empty (some ips) = ips

abbrev pub addresses_at : String → Dict (List String) → List String
addresses_at tid m = list_or_empty (lookup tid m)

-- `if ip: results_map.setdefault(tid, []).append(ip)`
unfoldable pub add_address : String → Option String → Dict (List String) → Dict (List String)
add_address tid none m = m
add_address tid (some ip) m = if ip == "" then m else insert tid (addresses_at tid m ++ ip ∷ []) m

unfoldable pub add_addresses :
    List (String × Option String) → Dict (List String) → Dict (List String)
unfolding add_address
add_addresses [] m = m
add_addresses ((tid, ip) ∷ rows) m = add_addresses rows (add_address tid ip m)

-- `{tid: [] for tid in task_ids}`
unfoldable pub no_addresses : List Task → Dict (List String)
no_addresses [] = []
no_addresses (t ∷ ts) = (t.id, []) ∷ no_addresses ts

pub record TaskRow : Type 0 where
  pub id : String
  pub task_type : String
  pub status : String
  pub description : String
  pub device_ips : List String
  pub created_at : ℕ

-- `GET /api/tasks`: one query for the addresses of all tasks shown.
unfoldable pub list_tasks : (String → Params) → (String → String) → Db → List TaskRow
unfolding newest_tasks add_addresses no_addresses task_description
list_tasks read_params strip db =
    let tasks = newest_tasks db.tasks in
    let shown = select (λ (r : TaskResult). any_row (has_task_id r.task_id) tasks) db.results in
    let results_map = add_addresses (joined_rows db.devices shown) (no_addresses tasks) in
    map
      (λ (t : Task). record {
        id = t.id;
        task_type = task_type_value t.task_type;
        status = task_status_value t.status;
        description = task_description strip t.task_type (params_of read_params t);
        device_ips = addresses_at t.id results_map;
        created_at = t.created_at;
      })
      tasks

pub record ResultRow : Type 0 where
  pub id : String
  pub device_id : String
  pub device_ip : String
  pub status : String
  pub output : Option String
  pub started_at : Option ℕ
  pub finished_at : Option ℕ

pub record TaskView : Type 0 where
  pub id : String
  pub task_type : TaskType
  pub status : TaskStatus
  pub description : String
  pub params : Option String
  pub created_at : ℕ
  pub results : List ResultRow

-- `ip_map = {did: ip …}`, where a later row of an id replaces an earlier one.
unfoldable pub ip_map : (String → Bool) → List Device → Dict (Option String) → Dict (Option String)
ip_map is_wanted [] m = m
ip_map is_wanted (d ∷ ds) m = ip_map is_wanted ds (if is_wanted d.id then insert d.id d.ip m else m)

-- `ip_map.get(r.device_id) or r.device_id`
abbrev pub shown_ip : Dict (Option String) → String → String
shown_ip m did = elim (lookup did m) [
  | none ↦ did
  | some none ↦ did
  | some (some ip) ↦ if ip == "" then did else ip
]

-- A task that was found, as `refresh_task` leaves it.
unfoldable pub view_task : (String → Params) → (String → String) → Task → Db → TaskView
unfolding ip_map task_description
view_task read_params strip task db =
    let results = select (of_task task.id) db.results in
    let m =
      ip_map (λ did. any_row (λ (r : TaskResult). r.device_id == did) results) db.devices [] in
    record {
      id = task.id;
      task_type = task.task_type;
      status = task.status;
      description = task_description strip task.task_type (params_of read_params task);
      params = task.params;
      created_at = task.created_at;
      results =
          map
            (λ (r : TaskResult). record {
              id = r.id;
              device_id = r.device_id;
              device_ip = shown_ip m r.device_id;
              status = r.status;
              output = r.output;
              started_at = r.started_at;
              finished_at = r.finished_at;
            })
            results;
    }

-- `GET /api/tasks/{task_id}`: the task is shown with what the timeout of upgrades has just written.
unfoldable pub get_task :
    (String → Params) → (String → String) → ℕ → String → Db → Result TaskView × Db
unfolding view_task
get_task read_params strip now task_id db =
    elim (scalar_one_or_none (select (has_task_id task_id) db.tasks)) [
      | err e ↦ (err e, db)
      | ok none ↦ (err (http 404 "Task not found"), db)
      | ok (some task) ↦
          let db' = refresh_task now task db in
          (
            scalar_one_or_none (select (has_task_id task_id) db'.tasks) >>= λ found. elim found [
              | none ↦ err (http 404 "Task not found")
              | some t ↦ ok (view_task read_params strip t db')
            ],
            db',
          )
    ]
