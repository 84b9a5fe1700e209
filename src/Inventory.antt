-- ===== src/Inventory.antt =====
-- server/api/device_routes.py: the administrator's operations on the devices. A handler runs as one
-- step; `fresh` is the `uuid4()` of its audit entry.
pub mod Names
pub mod Deletion
pub mod Listing
pub mod Pages
pub mod Secrets
mod Tests
use batch_shutdown_assistant.Prelude.{
  ℕ, ◌+◌, String, concat, decimal, Bool, true, false, ◌&&◌, Option, none, some, List, [], ◌∷◌, ◌++◌,
  length, select, update_where, any_row, is_some, not, Result, ok, err, http, scalar_one_or_none,
  ◌==◌, if◌then◌else◌,
}
use batch_shutdown_assistant.Models.{Device, DeviceStatus, new_device, Db}
use batch_shutdown_assistant.Devices.{by_id, put}
use batch_shutdown_assistant.Manager.{Command, Manager, is_agent_online, send_command}
use batch_shutdown_assistant.Audit.{log_audit}
use batch_shutdown_assistant.World.{World}

-- `DeviceCreate` and `DeviceUpdate`, which have the same fields
pub record DeviceFields : Type 0 where
  pub hostname : Option String
  pub ip : Option String
  pub group_name : Option String

-- `s or ''`
abbrev pub text_or_empty : Option String → String
text_or_empty none = ""
text_or_empty (some s) = s

-- `log_audit` without an address
unfoldable pub audit_device : String → ℕ → String → String → Option String → Option String → Db → Db
unfolding log_audit
audit_device fresh now action username target detail db = record db {
  audits =
      log_audit fresh now action
        (record { username = some username; target = target; detail = detail; ip_address = none })
        db.audits;
}

-- `POST /api/devices`; the ids are those of the device, its token and the audit entry.
unfoldable pub create_device :
    String → String → String → ℕ → String → DeviceFields → Db → Device × Db
unfolding audit_device
create_device id token fresh now username payload db =
    let device : Device = record (new_device id token now) {
      hostname = payload.hostname;
      ip = payload.ip;
      group_name = payload.group_name;
    } in
    (
      device,
      audit_device fresh now "device_create" username
          (some (
            concat (text_or_empty payload.hostname)
              (concat "(" (concat (text_or_empty payload.ip) ")"))))
          none (record db { devices = db.devices ++ device ∷ [] }),
    )

abbrev pub is_online : Device → Bool
is_online d = elim d.status [ DeviceStatus.online ↦ true | _ ↦ false ]

abbrev pub is_offline : Device → Bool
is_offline d = elim d.status [ DeviceStatus.offline ↦ true | _ ↦ false ]

abbrev pub is_active : Device → Bool
is_active d = not (is_some d.deleted_at)

pub record Stats : Type 0 where
  pub total : ℕ
  pub online : ℕ
  pub offline : ℕ

-- `GET /api/devices/stats`
unfoldable pub device_stats : List Device → Stats
device_stats devices = record {
  total = length (select is_active devices);
  online = length (select (λ d. is_active d && is_online d) devices);
  offline = length (select (λ d. is_active d && is_offline d) devices);
}

-- `if value is not None: column = value`
abbrev pub given_or : Option String → Option String → Option String
given_or none old = old
given_or (some s) old = some s

-- The columns that `update_device` sets.
unfoldable pub apply_update : DeviceFields → Device → Device
apply_update payload device = record device {
  hostname = given_or payload.hostname device.hostname;
  hostname_locked = if is_some payload.hostname then true else device.hostname_locked;
  ip = given_or payload.ip device.ip;
  group_name = given_or payload.group_name device.group_name;
}

-- `update_device` after the search
unfoldable pub update_found :
    String → ℕ → String → String → DeviceFields → Db → Result (Option Device) → Result Device × Db
unfolding audit_device
update_found fresh now username device_id payload db (err e) = (err e, db)
update_found fresh now username device_id payload db (ok none) =
    (err (http 404 "Device not found"), db)
update_found fresh now username device_id payload db (ok (some device)) = (
  ok (apply_update payload device),
  audit_device fresh now "device_update" username (some device_id) none
      (record db { devices = put (apply_update payload device) db.devices }),
)

-- `PUT /api/devices/{device_id}`
unfoldable pub update_device : String → ℕ → String → String → DeviceFields → Db → Result Device × Db
unfolding update_found
update_device fresh now username device_id payload db =
    update_found fresh now username device_id payload db
      (scalar_one_or_none (by_id device_id db.devices))

-- The uninstall command, to a device that is online and has a socket.
unfoldable pub uninstall : (ℕ → Bool) → String → Device → Manager → Bool × Manager
uninstall delivers command_id device m =
    if is_online device && is_agent_online device.id m
    then send_command delivers device.id
        (record { id = command_id; action = "uninstall"; params = "{}" }) m
    else (false, m)

-- The columns that a deletion sets.
unfoldable pub mark_deleted : ℕ → Device → Device
mark_deleted now device = record device { deleted_at = some now; status = DeviceStatus.offline }

-- `delete_device` after the search; the answer is `uninstall_sent`.
unfoldable pub delete_found :
    (ℕ → Bool)
    → String
    → String
    → ℕ
    → String
    → String
    → World
    → Result (Option Device)
    → Result Bool × World
unfolding uninstall audit_device
delete_found delivers command_id fresh now username device_id w (err e) = (err e, w)
delete_found delivers command_id fresh now username device_id w (ok none) =
    (err (http 404 "Device not found"), w)
delete_found delivers command_id fresh now username device_id w (ok (some device)) =
    let (uninstalled, m) = uninstall delivers command_id device w.manager in
    (
      ok uninstalled,
      record {
        db =
            audit_device fresh now "device_delete" username (some device_id)
              (if uninstalled then some "uninstall_sent=True" else none)
              (record w.db { devices = put (mark_deleted now device) w.db.devices });
        manager = m;
      },
    )

-- `DELETE /api/devices/{device_id}`
unfoldable pub delete_device :
    (ℕ → Bool) → String → String → ℕ → String → String → World → Result Bool × World
unfolding delete_found
delete_device delivers command_id fresh now username device_id w =
    delete_found delivers command_id fresh now username device_id w
      (scalar_one_or_none (by_id device_id w.db.devices))

-- `Device.id.in_(payload.device_ids)`
abbrev pub is_requested : List String → Device → Bool
is_requested device_ids d = any_row (λ did. did == d.id) device_ids

-- The loop that sends the uninstall commands, and how many were sent.
unfoldable pub uninstall_all : (ℕ → Bool) → (ℕ → String) → ℕ → List Device → Manager → ℕ × Manager
unfolding uninstall
uninstall_all delivers uuid i [] m = (0, m)
uninstall_all delivers uuid i (d ∷ ds) m =
    let (uninstalled, m') = uninstall delivers (uuid i) d m in
    let (n, m'') = uninstall_all delivers uuid (i + 1) ds m' in
    (if uninstalled then n + 1 else n, m'')

-- `POST /api/devices/batch-delete`: the numbers of deleted devices and of sent commands.
unfoldable pub batch_delete_devices :
    (ℕ → Bool) → (ℕ → String) → String → ℕ → String → List String → World → (ℕ × ℕ) × World
unfolding uninstall_all mark_deleted audit_device
batch_delete_devices delivers uuid fresh now username device_ids w =
    let devices = select (is_requested device_ids) w.db.devices in
    let (uninstall_count, m) = uninstall_all delivers uuid 0 devices w.manager in
    (
      (length devices, uninstall_count),
      record {
        db =
            audit_device fresh now "device_batch_delete" username none
              (some (
                concat "deleted=" (
                  concat (decimal (length devices)) (
                    concat "/" (
                      concat (decimal (length device_ids))
                        (concat ", uninstall_sent=" (decimal uninstall_count)))))))
              (record w.db {
                devices = update_where (is_requested device_ids) (mark_deleted now) w.db.devices;
              });
        manager = m;
      },
    )
