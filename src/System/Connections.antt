-- ===== src/System/Connections.antt =====
-- `Moved` for the life of an agent's socket and its reports.
use batch_shutdown_assistant.Prelude.{
  ℕ, String, ◌≡◌, ◌∙◌, ◌⊎◌, refl, sym, ap, Bool, true, not, ◌&&◌, List, [], ◌∷◌, update_where,
  any_row, all_rows, select, Bool-cases, inl, inr, ◌==◌, Option, none, some, Result, ok, err,
  scalar_one_or_none, contains,
}
use batch_shutdown_assistant.Models.{Device, DeviceStatus, Db, TaskResult}
use batch_shutdown_assistant.Devices.{has_id, by_id}
use batch_shutdown_assistant.Manager.{TaskUpdate, disconnect_agent, is_agent_online}
use batch_shutdown_assistant.Manager.Delivery.{broadcast_lem}
use batch_shutdown_assistant.World.{World}
use batch_shutdown_assistant.Tasks.{of_task}
use batch_shutdown_assistant.Sockets.{
  Message, Report, mark, may_open, open_socket, end_socket, is_empty_report, is_terminal,
  write_report, store_report, store_sysinfo, sync_with, sync_parent_task, limit_output,
  get_or_default,
}
use batch_shutdown_assistant.System.{Told, Server, hear_found, hear_for, hear, inform, tell}
use batch_shutdown_assistant.System.Tables.{
  Moved, Moved-same, Moved-update, contains-disconnect_agent, contains-connect_agent,
  found_is_there,
}

may_open-found :
    (token : String) (found : Result (Option Device))
    → may_open token found ≡ true
    → (d : Device) × (found ≡ ok (some d))
unfolding may_open
may_open-found token (err e) h = cc
may_open-found token (ok none) h = cc
may_open-found token (ok (some d)) h = (d, refl)

pub Moved-open_socket :
    (now : ℕ) (device_id token : String) (websocket : ℕ) (w : World)
    → Moved w (open_socket now device_id token websocket w).1
unfolding open_socket mark
Moved-open_socket now device_id token websocket w =
    let found = scalar_one_or_none (by_id device_id w.db.devices) in
    elim (Bool-cases (may_open token found)) [
      | inl accepted ↦
          let (d, there) = may_open-found token found accepted in
          rw accepted (
            Moved-update (has_id device_id)
              (λ d. record d { status = DeviceStatus.online; last_heartbeat = now }) w _ (λ d. refl)
              refl
              (λ k h. elim (contains-connect_agent k device_id websocket w.manager h) [
                | inl mine ↦ inr (
                    ap (λ i. any_row (has_id i) w.db.devices) (sym mine)
                    ∙ found_is_there device_id w.db.devices there)
                | inr before ↦ inl before
              ]))
      | inr refused ↦ rw refused (Moved-same w w refl refl)
    ]

pub Moved-end_socket :
    (now : ℕ) (device_id : String) (w : World) → Moved w (end_socket now device_id w)
unfolding end_socket mark
Moved-end_socket now device_id w =
    elim (Bool-cases (is_agent_online device_id (disconnect_agent device_id w.manager))) [
      | inl here ↦ rw here (record {
        keyed = λ h. h;
        stays = λ k _ h. h;
        known = λ k h. inl (contains-disconnect_agent k device_id w.manager h);
      })
      | inr gone ↦ rw gone (
          Moved-update (has_id device_id)
            (λ d. record d { status = DeviceStatus.offline; last_heartbeat = now }) w _ (λ d. refl)
            refl (λ k h. inl (contains-disconnect_agent k device_id w.manager h)))
    ]

devices-sync_with :
    (k : String) (rs : List TaskResult) (db : Db) → (sync_with k rs db).devices ≡ db.devices
unfolding sync_with
devices-sync_with k [] db = refl
devices-sync_with k (r ∷ rs) db =
    elim (Bool-cases (all_rows (λ (t : TaskResult). is_terminal t.status) (r ∷ rs))) [
      | inl over ↦ rw over refl
      | inr open_rows ↦ rw open_rows refl
    ]

-- The hardware that a report brings is an UPDATE of the device's row, or none.
abbrev IsUpdated : List Device → List Device → Type 0
IsUpdated ds ds' =
    (ds' ≡ ds)
    ⊎ ((p : Device → Bool) × (f : Device → Device) × (((d : Device) → (f d).id ≡ d.id)
          × (ds' ≡ update_where p f ds)))

store_report-IsUpdated :
    (now : ℕ) (device_id : String) (o : Option Report) (db : Db)
    → IsUpdated db.devices (store_report now device_id o db).devices
unfolding store_report write_report
store_report-IsUpdated now device_id none db = inl refl
store_report-IsUpdated now device_id (some r) db = elim (Bool-cases (is_empty_report r)) [
  | inl empty ↦ rw empty (inl refl)
  | inr full ↦ rw full (inr (has_id device_id, write_report now r, ((λ d. refl), refl)))
]

Moved-updated :
    (w w' : World)
    → IsUpdated w.db.devices w'.db.devices
    → w'.manager.active_connections ≡ w.manager.active_connections
    → Moved w w'
Moved-updated w w' (inl same) sockets = Moved-same w w' same sockets
Moved-updated w w' (inr (p, f, (same, e))) sockets =
    Moved-update p f w w' same e (λ k h. inl (ap (contains k) (sym sockets) ∙ h))

store_sysinfo-IsUpdated :
    (loads : String → Option Report) (now : ℕ) (device_id status output : String) (db : Db)
    → IsUpdated db.devices (store_sysinfo loads now device_id status output db).devices
unfolding store_sysinfo
store_sysinfo-IsUpdated loads now device_id status output db =
    elim (Bool-cases (status == "success" && not (output == ""))) [
      | inl good ↦ rw good (store_report-IsUpdated now device_id (loads output) db)
      | inr other ↦ rw other (inl refl)
    ]

pub Moved-inform :
    (loads : String → Option Report) (now : ℕ) (p : Told) (before later : List Told) (s : Server)
    → Moved s.world (inform loads now p before later s).world
unfolding inform
Moved-inform loads now p before later s =
    Moved-updated s.world _
      (store_sysinfo-IsUpdated loads now p.device_id (get_or_default p.msg.status "unknown")
        (limit_output (get_or_default p.msg.output "")) s.world.db)
      refl

pub Moved-tell :
    (delivers : ℕ → Bool) (p : Told) (others : List Told) (s : Server)
    → Moved s.world (tell delivers p others s).world
unfolding tell sync_parent_task
Moved-tell delivers p others s =
    let message : TaskUpdate = record {
      command_id = p.command_id;
      device_id = p.device_id;
      status = p.msg.status;
      output = p.msg.output;
    } in
    Moved-same s.world _
      (devices-sync_with p.task_id (select (of_task p.task_id) s.world.db.results) s.world.db)
      (broadcast_lem delivers p.task_id message s.world.manager).2

module _ (now : ℕ) (device_id : String) (msg : Message) (w : World) where
  Moved-hear_found :
      (k : String) (found : Result (Option TaskResult))
      → Moved w (hear_found now device_id k msg found w).0
  unfolding hear_found
  Moved-hear_found k (err e) = Moved-end_socket now device_id w
  Moved-hear_found k (ok none) = Moved-same w w refl refl
  Moved-hear_found k (ok (some r)) = Moved-same w _ refl refl

  Moved-hear_for :
      (command_id : Option String) → Moved w (hear_for now device_id msg command_id w).0
  unfolding hear_for
  Moved-hear_for none = Moved-same w w refl refl
  Moved-hear_for (some k) = elim (Bool-cases (k == "")) [
    | inl empty ↦ rw empty (Moved-same w w refl refl)
    | inr named ↦ rw named (Moved-hear_found k _)
  ]

pub Moved-hear :
    (now : ℕ) (device_id : String) (msg : Message) (s : Server)
    → Moved s.world (hear now device_id msg s).world
unfolding hear
Moved-hear now device_id msg s = Moved-hear_for now device_id msg s.world msg.command_id
