-- ===== src/System/Reachable.antt =====
-- The states that steps reach from a server that has just started, on an empty database.
use batch_shutdown_assistant.Prelude.{
  false, ◌++◌, ◌==◌, List, Bool-cases, String, ◌≡◌, refl, true, ◌&&◌, any_row, arith, inl, inr,
  contains, lookup-nil,
}
use batch_shutdown_assistant.Models.{Device, DeviceStatus, new_device}
use batch_shutdown_assistant.Devices.{has_id, IsKeyed}
use batch_shutdown_assistant.World.{World}
use batch_shutdown_assistant.Tasks.{has_task_id}
use batch_shutdown_assistant.Tasks.Dispatch.{dispatch_all-outcomes}
use batch_shutdown_assistant.Inventory.{is_online, create_device, audit_device}
use batch_shutdown_assistant.Monitor.{expire_devices, is_silent}
use batch_shutdown_assistant.System.{
  Server, started, begin_task, run_added, settle_flight, finish_task, Outside, Step, Reach,
  heartbeat, recover, connect, disconnect, report, store, sync, begin, run, settle, finish, cancel,
  read_task, create, update, delete, delete_many, expire, generate, import_range, import_file,
  reboot, restart, here, next,
}
use batch_shutdown_assistant.System.Busy.{is_opening}
use batch_shutdown_assistant.System.Rows.{has_ended}
use batch_shutdown_assistant.System.Tables.{
  Moved, Moved-same, Moved-update, Moved-append, Moved-Grown,
}
use batch_shutdown_assistant.System.Imports.{import_ip_range-Grown, import_csv-Grown}
use batch_shutdown_assistant.Deploy.{generate_device_token}
use batch_shutdown_assistant.Database.{Schema, migrate}
use batch_shutdown_assistant.Devices.Dedupe.{duplicate_ips, dedupe_devices}
use batch_shutdown_assistant.Devices.Dedupe.Live.{keep_each-IsKeyed}
use batch_shutdown_assistant.System.Handlers.{
  Moved-written, agent_heartbeat-IsWritten, agent_recover-IsRewritten, update_device-IsRewritten,
  Moved-rewritten, devices-cancel_task, devices-refresh_task, Moved-delete_device,
  Moved-batch_delete_devices,
}
use batch_shutdown_assistant.System.Connections.{
  Moved-open_socket, Moved-end_socket, Moved-hear, Moved-inform, Moved-tell,
}
use batch_shutdown_assistant.System.Steps.{Step-IsTaskSound, Step-KeepsEnded}
use batch_shutdown_assistant.System.Invariant.{IsTaskSound, KeepsEnded}

-- No two devices have one primary key, and each socket of an agent is that of a device in the table.
pub record IsDeviceSound (w : World) : Type 0 where
  pub keyed : IsKeyed w.db.devices
  pub known :
      (k : String)
      → contains k w.manager.active_connections ≡ true
      → any_row (has_id k) w.db.devices ≡ true

Moved-IsDeviceSound : (w w' : World) → Moved w w' → IsDeviceSound w → IsDeviceSound w'
Moved-IsDeviceSound w w' moved sound = record {
  keyed = moved.keyed sound.keyed;
  known = λ k h. elim (moved.known k h) [
    | inl before ↦ moved.stays k h (sound.known k before)
    | inr there ↦ moved.stays k h there
  ];
}

migrate-IsKeyed : (schema : Schema) (ds : List Device) → IsKeyed ds → IsKeyed (migrate schema ds).1
unfolding migrate dedupe_devices
migrate-IsKeyed schema ds h = elim (Bool-cases (any_row (λ t. t == "devices") schema.tables)) [
  | inl there ↦ rw there (keep_each-IsKeyed (duplicate_ips ds ds) ds h)
  | inr gone ↦ rw gone h
]

Moved-Step : {o : Outside} {s t : Server} → Step o s t → Moved s.world t.world
Moved-Step {o} {s} (heartbeat now payload request fresh fresh_token new) =
    Moved-written fresh s.world _ new
      (agent_heartbeat-IsWritten o.config now payload request fresh fresh_token s.world.db.devices)
      refl
Moved-Step {o} {s} (recover now payload request) =
    Moved-rewritten s.world _ (agent_recover-IsRewritten now payload request s.world.db.devices)
      refl
Moved-Step {o} {s} (connect now device_id token websocket) =
    Moved-open_socket now device_id token websocket s.world
Moved-Step {o} {s} (disconnect now device_id) = Moved-end_socket now device_id s.world
Moved-Step {o} {s} (report now device_id msg) = Moved-hear now device_id msg s
Moved-Step {o} {s} (store now before later p there first) =
    Moved-inform o.loads now p before later s
Moved-Step {o} {s} (sync before later p there second) = Moved-tell o.delivers p (before ++ later) s
Moved-Step {o} {s} (begin uuid now task_type payload injective unused new) =
    unfold begin_task in Moved-same s.world _ refl refl
Moved-Step {o} {s} (run before later a there) =
    unfold run_added in
    Moved-same s.world _ refl
      (dispatch_all-outcomes o.delivers a.task_type a.params a.rows s.world.manager).1
Moved-Step {o} {s} (settle now before later f there) =
    unfold settle_flight in Moved-same s.world _ refl refl
Moved-Step {o} {s} (finish before later f there) =
    unfold finish_task in Moved-same s.world _ refl refl
Moved-Step {o} {s} (cancel fresh now username task_id) =
    Moved-same s.world _ (devices-cancel_task fresh now username task_id s.world.db) refl
Moved-Step {o} {s} (read_task now task) =
    Moved-same s.world _ (devices-refresh_task now task s.world.db) refl
Moved-Step {o} {s} (create id token fresh now username payload new) =
    unfold create_device audit_device new_device in Moved-append _ s.world _ new refl refl
Moved-Step {o} {s} (update fresh now username device_id payload) =
    Moved-rewritten s.world _
      (update_device-IsRewritten fresh now username device_id payload s.world.db) refl
Moved-Step {o} {s} (delete command_id fresh now username device_id) =
    Moved-delete_device o.delivers fresh now username s.world command_id device_id
Moved-Step {o} {s} (delete_many uuid fresh now username device_ids) =
    Moved-batch_delete_devices o.delivers fresh now username s.world uuid device_ids
Moved-Step {o} {s} (expire now) =
    unfold expire_devices in
    Moved-update (λ d. is_online d && is_silent now d)
      (λ d. record d { status = DeviceStatus.offline }) s.world _ (λ d. refl) refl (λ k h. inl h)
Moved-Step {o} {s} (generate id token fresh now username payload new) =
    unfold generate_device_token audit_device new_device in Moved-append _ s.world _ new refl refl
Moved-Step {o} {s} (import_range ids tokens message fresh now username payload injective new) =
    Moved-Grown s.world _
      (import_ip_range-Grown ids injective tokens now fresh username s.world.db message payload
        (λ n le. new n))
      refl
Moved-Step {o} {s}
      (import_file strip ids tokens fresh now username filename group rows injective new) =
    Moved-Grown s.world _
      (import_csv-Grown ids injective tokens now strip group fresh username filename rows s.world.db
        (λ n le. new n))
      refl
Moved-Step {o} {s} (reboot crypto schema fresh now) =
    unfold restart in
    record {
      keyed = migrate-IsKeyed schema s.world.db.devices;
      stays = λ k h. cc (rw (lookup-nil k) at h);
      known = λ k h. cc (rw (lookup-nil k) at h);
    }

pub record IsSound (s : Server) : Type 0 where
  pub of_tasks : IsTaskSound s
  pub of_devices : IsDeviceSound s.world

started-IsSound : IsSound started
started-IsSound = record {
  of_tasks = record {
    unique = λ k. omega arith;
    owned = λ id h. cc;
    flying = tt;
    waiting = tt;
    settled = λ id h. refl;
  };
  of_devices = record { keyed = tt; known = λ k h. cc (rw (lookup-nil k) at h) };
}

-- The rest of a run keeps what holds at its start.
pub Reach-keeps : {o : Outside} {s t : Server} → IsSound s → Reach o s t → IsSound t
Reach-keeps sound here = sound
Reach-keeps sound (next {t} {u} r step) =
    let before = Reach-keeps sound r in
    record {
      of_tasks = Step-IsTaskSound step before.of_tasks;
      of_devices = Moved-IsDeviceSound t.world u.world (Moved-Step step) before.of_devices;
    }

-- In every state that the server reaches from an empty database by the steps of System, in whatever
-- order: no two devices have one primary key; each agent's socket is of a device in the table; no two
-- results have one id; each result is of a task in the table; the outcomes that are still to be
-- committed are of results of their task; and a task all of whose results have ended has ended, unless
-- it is busy: a handler of it is between two of its commits and has still to start it, to commit its
-- outcomes, to fail it or to sync it after a report, or a stop of the server has cut one off.
pub Reach-IsSound : {o : Outside} {s : Server} → Reach o started s → IsSound s
Reach-IsSound r = Reach-keeps started-IsSound r

keeps_ended : {o : Outside} {s t : Server} → IsSound s → Reach o s t → KeepsEnded s t
keeps_ended sound here = λ id there over past. (there, over, past)
keeps_ended sound (next r step) = λ id there over past.
    let (still, ended, started) = keeps_ended sound r id there over past in
    Step-KeepsEnded step (Reach-keeps sound r).of_tasks id still ended started

-- A task that has ended in some reachable state, and whose create_task is not between its first two
-- commits there, has ended in every later one: no step of System makes it pending or running again, or
-- removes it.
pub ended_tasks_stay_ended :
    {o : Outside} {s t : Server} (id : String)
    → Reach o started s
    → Reach o s t
    → any_row (has_task_id id) s.world.db.tasks ≡ true
    → has_ended id s.world.db.tasks ≡ true
    → is_opening id s ≡ false
    → (any_row (has_task_id id) t.world.db.tasks ≡ true) × (has_ended id t.world.db.tasks ≡ true)
ended_tasks_stay_ended id r later there over past =
    let (still, ended, _) = keeps_ended (Reach-IsSound r) later id there over past in (still, ended)
