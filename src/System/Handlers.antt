-- ===== src/System/Handlers.antt =====
-- `Moved` for each handler that writes devices or sockets.
use batch_shutdown_assistant.Prelude.{
  ℕ, ◌+◌, String, ◌≡◌, ◌∙◌, ◌⊎◌, refl, sym, ap, Bool, false, not, ◌&&◌, ◌||◌, List, [], ◌∷◌, ◌++◌,
  any_row, select, Bool-cases, inl, inr, ◌==◌, is_some, Option, none, some, Result, ok, err,
  scalar_one_or_none, contains,
}
use batch_shutdown_assistant.Models.{Device, Db, Task, TaskResult}
use batch_shutdown_assistant.Devices.{has_id, by_id, put}
use batch_shutdown_assistant.Manager.{Manager, Command, is_agent_online}
use batch_shutdown_assistant.World.{World}
use batch_shutdown_assistant.Agent.{
  Config, Heartbeat, Headers, Recover, enroll_secret_valid, agent_token, adopt_device,
  refresh_device,
}
use batch_shutdown_assistant.Agent.Handlers.{
  known_device, unknown_device, registered_device, handle_found, find_device, agent_heartbeat,
  recover_found, agent_recover,
}
use batch_shutdown_assistant.Agent.Outcomes.{registered_device-id}
use batch_shutdown_assistant.Tasks.Dispatch.{send_command_sound}
use batch_shutdown_assistant.Inventory.{
  DeviceFields, is_online, audit_device, apply_update, update_found, update_device, uninstall,
  mark_deleted, delete_found, delete_device, is_requested, uninstall_all, batch_delete_devices,
}
use batch_shutdown_assistant.Tasks.{has_task_id, of_task}
use batch_shutdown_assistant.Tasks.Lifecycle.{
  is_cancellable, cancel_rows, cancel_found, cancel_task, is_overdue, time_out_upgrade,
  is_running_upgrade, refresh_task,
}
use batch_shutdown_assistant.System.Tables.{
  Moved, Moved-same, Moved-update, Moved-put, Moved-append,
}

-- How a request about one device changes the table: not at all, by one row, or by a new row with the
-- new id.
abbrev pub IsWritten : String → List Device → List Device → Type 0
IsWritten fresh ds ds' =
    (ds' ≡ ds)
    ⊎ ((d : Device) × (ds' ≡ put d ds))
    ⊎ ((d : Device) × (d.id ≡ fresh) × (ds' ≡ ds ++ d ∷ []))

pub Moved-written :
    (fresh : String) (w w' : World)
    → any_row (has_id fresh) w.db.devices ≡ false
    → IsWritten fresh w.db.devices w'.db.devices
    → w'.manager.active_connections ≡ w.manager.active_connections
    → Moved w w'
Moved-written fresh w w' new (inl same) sockets = Moved-same w w' same sockets
Moved-written fresh w w' new (inr (inl (d, e))) sockets = Moved-put d w w' e sockets
Moved-written fresh w w' new (inr (inr (d, id, e))) sockets =
    Moved-append d w w' (ap (λ i. any_row (has_id i) w.db.devices) id ∙ new) e sockets

module _ (config : Config) (now : ℕ) (payload : Heartbeat) (request : Headers)
    (fresh fresh_token : String) (ds : List Device) where
  known_device-IsWritten :
      (d : Device)
      → IsWritten fresh ds (known_device config now payload request ds (agent_token request) d).1
  unfolding known_device
  known_device-IsWritten d =
      let token = agent_token request in
      elim (Bool-cases (d.token == "" || token == d.token)) [
        | inl valid ↦ rw valid (inr (inl (refresh_device now d payload, refl)))
        | inr other ↦
            rw other
              (elim (Bool-cases (is_some d.deleted_at || enroll_secret_valid config request)) [
                | inl taken ↦ rw taken (inr (inl (adopt_device now d payload token, refl)))
                | inr refused ↦ rw refused (elim (Bool-cases (is_some d.deleted_at)) [
                  | inl deleted ↦ rw deleted (inl refl)
                  | inr live ↦ rw live (inl refl)
                ])
              ])
      ]

  handle_found-IsWritten :
      (found : Result (Option Device))
      → IsWritten fresh ds
          (handle_found config now payload request ds
            (agent_token request)
            fresh
            fresh_token
            found).1
  unfolding handle_found unknown_device
  handle_found-IsWritten (err e) = inl refl
  handle_found-IsWritten (ok none) = elim (Bool-cases (enroll_secret_valid config request)) [
    | inl enrolled ↦ rw enrolled (
        inr (
          inr (
            registered_device now payload (agent_token request) fresh fresh_token,
            registered_device-id now payload (agent_token request) fresh fresh_token,
            refl,
          )))
    | inr refused ↦ rw refused (inl refl)
  ]
  handle_found-IsWritten (ok (some d)) = known_device-IsWritten d

  pub agent_heartbeat-IsWritten :
      IsWritten fresh ds (agent_heartbeat config now payload request fresh fresh_token ds).1
  unfolding agent_heartbeat
  agent_heartbeat-IsWritten = handle_found-IsWritten (find_device payload ds)

abbrev pub IsRewritten : List Device → List Device → Type 0
IsRewritten ds ds' = (ds' ≡ ds) ⊎ ((d : Device) × (ds' ≡ put d ds))

pub Moved-rewritten :
    (w w' : World)
    → IsRewritten w.db.devices w'.db.devices
    → w'.manager.active_connections ≡ w.manager.active_connections
    → Moved w w'
Moved-rewritten w w' (inl same) sockets = Moved-same w w' same sockets
Moved-rewritten w w' (inr (d, e)) sockets = Moved-put d w w' e sockets

module _ (now : ℕ) (payload : Recover) (request : Headers) (ds : List Device) where
  recover_found-IsRewritten :
      (found : Result (Option Device))
      → IsRewritten ds (recover_found now payload ds (agent_token request) found).1
  unfolding recover_found
  recover_found-IsRewritten (err e) = inl refl
  recover_found-IsRewritten (ok none) = inl refl
  recover_found-IsRewritten (ok (some d)) =
      elim (Bool-cases (not (d.token == "") && not (agent_token request == d.token))) [
        | inl refused ↦ rw refused (inl refl)
        | inr valid ↦ rw valid (inr (_, refl))
      ]

  pub agent_recover-IsRewritten : IsRewritten ds (agent_recover now payload request ds).1
  unfolding agent_recover
  agent_recover-IsRewritten =
      recover_found-IsRewritten (scalar_one_or_none (by_id payload.device_id ds))

module _ (fresh : String) (now : ℕ) (username device_id : String) where
  update_found-IsRewritten :
      (payload : DeviceFields) (db : Db) (found : Result (Option Device))
      → IsRewritten db.devices
          (update_found fresh now username device_id payload db found).1.devices
  unfolding update_found audit_device
  update_found-IsRewritten payload db (err e) = inl refl
  update_found-IsRewritten payload db (ok none) = inl refl
  update_found-IsRewritten payload db (ok (some d)) = inr (apply_update payload d, refl)

  pub update_device-IsRewritten :
      (payload : DeviceFields) (db : Db)
      → IsRewritten db.devices (update_device fresh now username device_id payload db).1.devices
  unfolding update_device
  update_device-IsRewritten payload db =
      update_found-IsRewritten payload db (scalar_one_or_none (by_id device_id db.devices))

-- Commands are sent on sockets, and change none.
uninstall-sockets :
    (delivers : ℕ → Bool) (command_id : String) (d : Device) (m : Manager)
    → (uninstall delivers command_id d m).1.active_connections ≡ m.active_connections
unfolding uninstall
uninstall-sockets delivers command_id d m =
    let c : Command = record { id = command_id; action = "uninstall"; params = "{}" } in
    elim (Bool-cases (is_online d && is_agent_online d.id m)) [
      | inl up ↦ rw up (send_command_sound delivers d.id c m).1
      | inr down ↦ rw down refl
    ]

uninstall_all-sockets :
    (delivers : ℕ → Bool) (uuid : ℕ → String) (i : ℕ) (ds : List Device) (m : Manager)
    → (uninstall_all delivers uuid i ds m).1.active_connections ≡ m.active_connections
unfolding uninstall_all
uninstall_all-sockets delivers uuid i [] m = refl
uninstall_all-sockets delivers uuid i (d ∷ ds) m =
    uninstall_all-sockets delivers uuid (i + 1) ds (uninstall delivers (uuid i) d m).1
    ∙ uninstall-sockets delivers (uuid i) d m

module _ (delivers : ℕ → Bool) (fresh : String) (now : ℕ) (username : String) (w : World) where
  Moved-delete_found :
      (command_id device_id : String) (found : Result (Option Device))
      → Moved w (delete_found delivers command_id fresh now username device_id w found).1
  unfolding delete_found audit_device
  Moved-delete_found command_id device_id (err e) = Moved-same w w refl refl
  Moved-delete_found command_id device_id (ok none) = Moved-same w w refl refl
  Moved-delete_found command_id device_id (ok (some d)) =
      Moved-put (mark_deleted now d) w _ refl (uninstall-sockets delivers command_id d w.manager)

  pub Moved-delete_device :
      (command_id device_id : String)
      → Moved w (delete_device delivers command_id fresh now username device_id w).1
  unfolding delete_device
  Moved-delete_device command_id device_id =
      Moved-delete_found command_id device_id (scalar_one_or_none (by_id device_id w.db.devices))

  pub Moved-batch_delete_devices :
      (uuid : ℕ → String) (device_ids : List String)
      → Moved w (batch_delete_devices delivers uuid fresh now username device_ids w).1
  unfolding batch_delete_devices audit_device mark_deleted
  Moved-batch_delete_devices uuid device_ids =
      let devices = select (is_requested device_ids) w.db.devices in
      Moved-update (is_requested device_ids) (mark_deleted now) w _ (λ d. refl) refl
        (λ k h.
          inl (ap (contains k) (sym (uninstall_all-sockets delivers uuid 0 devices w.manager)) ∙ h))

devices-cancel_found :
    (fresh : String) (now : ℕ) (username task_id : String) (db : Db) (found : Result (Option Task))
    → (cancel_found fresh now username task_id db found).1.devices ≡ db.devices
unfolding cancel_found cancel_rows
devices-cancel_found fresh now username task_id db (err e) = refl
devices-cancel_found fresh now username task_id db (ok none) = refl
devices-cancel_found fresh now username task_id db (ok (some t)) =
    elim (Bool-cases (is_cancellable t.status)) [
      | inl live ↦ rw live refl
      | inr done ↦ rw done refl
    ]

-- A cancellation writes no device.
pub devices-cancel_task :
    (fresh : String) (now : ℕ) (username task_id : String) (db : Db)
    → (cancel_task fresh now username task_id db).1.devices ≡ db.devices
unfolding cancel_task
devices-cancel_task fresh now username task_id db =
    devices-cancel_found fresh now username task_id db
      (scalar_one_or_none (select (has_task_id task_id) db.tasks))

-- The reading of a task writes no device.
pub devices-refresh_task :
    (now : ℕ) (task : Task) (db : Db) → (refresh_task now task db).devices ≡ db.devices
unfolding refresh_task time_out_upgrade
devices-refresh_task now task db =
    let late = λ (r : TaskResult). of_task task.id r && is_overdue now r in
    elim (Bool-cases (is_running_upgrade task)) [
      | inl running ↦ rw running (elim (Bool-cases (any_row late db.results)) [
        | inl some_late ↦ rw some_late refl
        | inr in_time ↦ rw in_time refl
      ])
      | inr other ↦ rw other refl
    ]
