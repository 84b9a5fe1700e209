-- ===== src/Manager/Tests.antt =====
-- Tests of server/api/websocket_manager.py.
use batch_shutdown_assistant.Prelude.{ℕ, ◌≡◌, Bool, none, some, [], ◌∷◌, map, select, num_eq, not}
use batch_shutdown_assistant.Manager.{
  Command, update, TaskUpdate, Manager, new_manager, subscribers_of, broadcast_task_update,
}
use batch_shutdown_assistant.Manager.Delivery.{broadcast_lem}

-- Socket 2 is dead.
abbrev delivers : ℕ → Bool
delivers ws = not (num_eq ws 2)

abbrev reboot : Command
reboot = record { id = "r1"; action = "reboot"; params = "{}" }

abbrev watched : Manager
watched = record new_manager { task_subscribers = ("t1", 1 ∷ 2 ∷ 3 ∷ []) ∷ [] }

abbrev done : TaskUpdate
done = record { command_id = "r1"; device_id = "d1"; status = some "success"; output = none }

broadcast_lem_example :
    let m' = broadcast_task_update delivers "t1" done watched in
    (m'.sent ≡ map (λ ws. (ws, update done)) (select delivers (subscribers_of "t1" watched)))
    × (subscribers_of "t1" m' ≡ select delivers (subscribers_of "t1" watched))
    × (m'.active_connections ≡ [])
broadcast_lem_example = broadcast_lem delivers "t1" done watched
