-- ===== src/Sockets/Tests.antt =====
-- Tests of server/api/ws_routes.py.
use batch_shutdown_assistant.Prelude.{
  ℕ, ◌≡◌, ◌≢◌, refl, String, Bool, true, Option, none, some, [], ◌∷◌, update_where, ok,
  scalar_one_or_none, arith, eq_iff,
}
use batch_shutdown_assistant.Models.{Device, new_device, TaskResult, TaskType, TaskStatus, empty_db}
use batch_shutdown_assistant.Devices.{by_id}
use batch_shutdown_assistant.Manager.{new_manager, is_agent_online}
use batch_shutdown_assistant.World.{World}
use batch_shutdown_assistant.Tasks.{has_task_id, set_status}
use batch_shutdown_assistant.Sockets.{Report, Message, final_status, open_socket, receive}
use batch_shutdown_assistant.Sockets.Parent.{final_status_lem}
use batch_shutdown_assistant.Sockets.Session.{open_socket_needs_token}
use batch_shutdown_assistant.Sockets.Reports.{last_success_completes}

abbrev loads : String → Option Report
loads s = none

abbrev delivers : ℕ → Bool
delivers ws = true

abbrev result : String → String → TaskResult
result id status = record {
  id = id;
  task_id = "t1";
  device_id = "d1";
  status = status;
  output = none;
  started_at = none;
  finished_at = none;
}

-- A task that was cancelled while its one command ran.
abbrev world : World
world = record {
  db = record empty_db {
    devices = new_device "d1" "tok" 0 ∷ [];
    tasks =
        record {
          id = "t1";
          task_type = TaskType.reboot;
          status = TaskStatus.cancelled;
          params = none;
          created_at = 0;
        }
        ∷ [];
    results = result "r1" "cancelled" ∷ [];
  };
  manager = new_manager;
}

abbrev success : Message
success = record { command_id = some "r1"; status = some "success"; output = none }

final_status_lem_example :
    final_status (result "r1" "success" ∷ result "r2" "cancelled" ∷ []) ≡ TaskStatus.cancelled
final_status_lem_example =
    final_status_lem (result "r1" "success" ∷ result "r2" "cancelled" ∷ []) refl

opened : (open_socket 5 "d1" "tok" 1 world).0 ≡ true
unfolding open_socket new_device
opened = refl

open_socket_needs_token_example :
    (d : Device) × (scalar_one_or_none (by_id "d1" world.db.devices) ≡ ok (some d))
    × (d.token ≡ "tok")
    × (◌≢◌ {A = String} "tok" "")
    × (is_agent_online "d1" (open_socket 5 "d1" "tok" 1 world).1.manager ≡ true)
open_socket_needs_token_example = open_socket_needs_token 5 "d1" "tok" 1 world opened

r1_not_empty : ◌≢◌ {A = String} "r1" ""
r1_not_empty = ground (arith, eq_iff "r1" "")

last_success_completes_example :
    (receive loads delivers 5 "d1" success world).db.tasks
    ≡ update_where (has_task_id "t1") (set_status TaskStatus.completed) world.db.tasks
last_success_completes_example =
    last_success_completes loads delivers 5 success world "r1" refl r1_not_empty refl "d1" refl refl
