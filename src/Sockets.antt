-- ===== src/Sockets.antt =====
-- server/api/ws_routes.py: the socket of an agent, its messages and the parent task's status.
-- `agent_websocket` is cut where it waits: opening, each message, and the end are steps of their own.
pub mod Parent
pub mod Session
pub mod Viewers
pub mod Reports
mod Tests
use batch_shutdown_assistant.Prelude.{
  ℕ, String, is_ascii, concat, len, take_chars, decimal, Bool, true, false, not, ◌||◌, ◌&&◌, Option,
  none, some, List, [], ◌∷◌, ◌++◌, length, select, update_where, any_row, all_rows, is_some, ltb,
  Result, ok, err, scalar_one_or_none, ◌==◌, if◌then◌else◌,
}
use batch_shutdown_assistant.Models.{ℤ, Db, Device, DeviceStatus, Task, TaskResult, TaskStatus}
use batch_shutdown_assistant.Devices.{has_id, by_id}
use batch_shutdown_assistant.Manager.{
  Manager, TaskUpdate, connect_agent, disconnect_agent, is_agent_online, broadcast_task_update,
}
use batch_shutdown_assistant.Tasks.{has_task_id, has_result_id, of_task, set_status}
use batch_shutdown_assistant.World.{World}

-- `update(Device).where(id).values(status, last_heartbeat)`
unfoldable pub mark : DeviceStatus → ℕ → String → List Device → List Device
mark status now device_id devices =
    update_where (has_id device_id) (λ d. record d { status = status; last_heartbeat = now })
      devices

-- The `finally` of the socket's loop.
unfoldable pub end_socket : ℕ → String → World → World
unfolding mark
end_socket now device_id w =
    let m = disconnect_agent device_id w.manager in
    if is_agent_online device_id m then record w { manager = m } else record {
      db = record w.db { devices = mark DeviceStatus.offline now device_id w.db.devices };
      manager = m;
    }

-- TERMINAL_STATUSES
abbrev pub is_terminal : String → Bool
is_terminal s = s == "success" || s == "failed" || s == "cancelled" || s == "timeout"

abbrev pub max_output_chars : ℕ
max_output_chars = 100000

-- `_token_equal`: `none` where `hmac.compare_digest` raises, for a text that is not ASCII. The constant
-- time of the comparison is not modelled.
unfoldable pub token_equal : String → String → Option Bool
token_equal expected provided =
    if expected == "" || provided == ""
    then some false
    else if not (is_ascii expected && is_ascii provided)
    then none
    else some (expected == provided)

-- The status of a task whose results have all ended.
unfoldable pub final_status : List TaskResult → TaskStatus
final_status results =
    if all_rows (λ r. r.status == "success") results
    then TaskStatus.completed
    else if any_row (λ r. r.status == "cancelled") results
        && all_rows (λ r. r.status == "cancelled" || r.status == "success") results
    then TaskStatus.cancelled
    else TaskStatus.failed

-- `_sync_parent_task` on the results of the task
unfoldable pub sync_with : String → List TaskResult → Db → Db
unfolding final_status
sync_with task_id [] db = db
sync_with task_id (r ∷ rs) db =
    if all_rows (λ t. is_terminal t.status) (r ∷ rs)
    then record db {
      tasks = update_where (has_task_id task_id) (set_status (final_status (r ∷ rs))) db.tasks;
    }
    else db

unfoldable pub sync_parent_task : String → Db → Db
unfolding sync_with
sync_parent_task task_id db = sync_with task_id (select (of_task task_id) db.results) db

-- What `json.loads` gives of an agent's report: for each known field whether it is there, and its
-- value or null.
pub record Report : Type 0 where
  pub cpu_model : Option (Option String)
  pub cpu_cores : Option (Option ℤ)
  pub memory_total_mb : Option (Option ℤ)
  pub disk_total_gb : Option (Option ℤ)
  pub disk_free_gb : Option (Option ℤ)
  pub os_version : Option (Option String)
  pub serial_number : Option (Option String)
  pub mac_address : Option (Option String)
  pub manufacturer : Option (Option String)
  pub model : Option (Option String)

-- A column that the report has is written, also with null.
abbrev pub column : {A : Type 0} → Option (Option A) → Option A → Option A
column none old = old
column (some v) old = v

-- `if not values: return`
unfoldable pub is_empty_report : Report → Bool
is_empty_report r = not (
    is_some r.cpu_model
    || is_some r.cpu_cores
    || is_some r.memory_total_mb
    || is_some r.disk_total_gb
    || is_some r.disk_free_gb
    || is_some r.os_version
    || is_some r.serial_number
    || is_some r.mac_address
    || is_some r.manufacturer
    || is_some r.model)

unfoldable pub write_report : ℕ → Report → Device → Device
write_report now r d = record d {
  cpu_model = column r.cpu_model d.cpu_model;
  cpu_cores = column r.cpu_cores d.cpu_cores;
  memory_total_mb = column r.memory_total_mb d.memory_total_mb;
  disk_total_gb = column r.disk_total_gb d.disk_total_gb;
  disk_free_gb = column r.disk_free_gb d.disk_free_gb;
  os_version = column r.os_version d.os_version;
  serial_number = column r.serial_number d.serial_number;
  mac_address = column r.mac_address d.mac_address;
  manufacturer = column r.manufacturer d.manufacturer;
  model = column r.model d.model;
  sysinfo_updated_at = some now;
}

-- `_store_sysinfo_output` on what `json.loads` returned; `none` is an invalid text or no dict.
unfoldable pub store_report : ℕ → String → Option Report → Db → Db
unfolding is_empty_report write_report
store_report now device_id none db = db
store_report now device_id (some r) db =
    if is_empty_report r
    then db
    else record db { devices = update_where (has_id device_id) (write_report now r) db.devices }

-- A message of an agent, decoded: the keys that are there. Their values are texts.
pub record Message : Type 0 where
  pub command_id : Option String
  pub status : Option String
  pub output : Option String

-- `msg.get(key, default)`
abbrev pub get_or_default : Option String → String → String
get_or_default none d = d
get_or_default (some s) d = s

-- The output that is stored.
unfoldable pub limit_output : String → String
limit_output output =
    if ltb max_output_chars (len output)
    then concat (take_chars max_output_chars output)
        (concat "\n...[truncated, total " (concat (decimal (len output)) " chars]"))
    else output

-- The writes of a message to the result that it names.
unfoldable pub write_result : ℕ → Message → TaskResult → TaskResult
unfolding limit_output
write_result now msg r = record r {
  status = get_or_default msg.status "unknown";
  output = some (limit_output (get_or_default msg.output ""));
  finished_at = some now;
}

module _ (loads : String → Option Report) where
  -- `if task_result.status == "success" and task_result.output`
  unfoldable pub store_sysinfo : ℕ → String → String → String → Db → Db
  unfolding store_report
  store_sysinfo now device_id status output db =
      if status == "success" && not (output == "")
      then store_report now device_id (loads output) db
      else db

-- The first commit of a message: the result that it names, as it was found.
abbrev pub store_result : ℕ → Message → TaskResult → Db → Db
store_result now msg r db = record db {
  results = update_where (has_result_id r.id) (λ _. write_result now msg r) db.results;
}

-- What follows the last one: the parent task's status, and the news for its subscribers.
abbrev pub tell_task : (ℕ → Bool) → String → String → Message → String → World → World
tell_task delivers device_id command_id msg task_id w = record {
  db = sync_parent_task task_id w.db;
  manager =
      broadcast_task_update delivers task_id
        (record {
          command_id = command_id;
          device_id = device_id;
          status = msg.status;
          output = msg.output;
        })
        w.manager;
}

-- The second commit: the hardware of a successful report.
abbrev pub store_output : (String → Option Report) → ℕ → String → Message → Db → Db
store_output loads now device_id msg db =
    store_sysinfo loads now device_id (get_or_default msg.status "unknown")
      (limit_output (get_or_default msg.output "")) db

module _ (loads : String → Option Report) (delivers : ℕ → Bool) where
  -- A message for a result that is found, its commits with nothing between them.
  unfoldable pub report_result : ℕ → String → String → Message → TaskResult → World → World
  unfolding write_result store_sysinfo sync_parent_task
  report_result now device_id command_id msg r w =
      let stored = store_result now msg r w.db in
      let informed = store_output loads now device_id msg stored in
      tell_task delivers device_id command_id msg r.task_id (record w { db = informed })

  unfoldable pub report_found :
      ℕ → String → String → Message → Result (Option TaskResult) → World → World
  report_found now device_id command_id msg (err e) w = end_socket now device_id w
  report_found now device_id command_id msg (ok none) w = w
  report_found now device_id command_id msg (ok (some r)) w =
      report_result now device_id command_id msg r w

  unfoldable pub receive_for : ℕ → String → Message → Option String → World → World
  unfolding report_found
  receive_for now device_id msg none w = w
  receive_for now device_id msg (some command_id) w =
      if command_id == ""
      then w
      else report_found now device_id command_id msg
          (scalar_one_or_none (select (has_result_id command_id) w.db.results)) w

  -- The body of the loop, for a message that is decoded. An exception of the search would end the
  -- socket.
  unfoldable pub receive : ℕ → String → Message → World → World
  unfolding receive_for
  receive now device_id msg w = receive_for now device_id msg msg.command_id w

-- Whether the token is accepted, on the device that was found. An exception ends the handler before
-- the socket is accepted.
unfoldable pub may_open : String → Result (Option Device) → Bool
unfolding token_equal
may_open token (err e) = false
may_open token (ok none) = false
may_open token (ok (some d)) = elim (token_equal d.token token) [ none ↦ false | some b ↦ b ]

-- The opening of the socket: `true` if it is accepted, `false` if it is closed with 4001.
unfoldable pub open_socket : ℕ → String → String → ℕ → World → Bool × World
unfolding may_open mark
open_socket now device_id token websocket w =
    if may_open token (scalar_one_or_none (by_id device_id w.db.devices))
    then (
      true,
      record {
        db = record w.db { devices = mark DeviceStatus.online now device_id w.db.devices };
        manager = connect_agent device_id websocket w.manager;
      },
    )
    else (false, w)
