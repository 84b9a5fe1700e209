-- ===== src/Inventory/Tests.antt =====
-- Tests of server/api/device_routes.py.
use mathlib.Core.List.{Perm}
use batch_shutdown_assistant.Prelude.{
  map, ℕ, ◌≡◌, refl, String, Bool, true, false, not, ◌&&◌, none, some, List, [], ◌∷◌, ok, num_eq,
  ◌==◌, length, select, sort_by, IsSortedBy, any_row, scalar_one_or_none,
}
use batch_shutdown_assistant.Models.{pos, Device, DeviceStatus, Db, empty_db, new_device}
use batch_shutdown_assistant.Addresses.{read_address}
use batch_shutdown_assistant.Devices.{by_id, put}
use batch_shutdown_assistant.Manager.{new_manager}
use batch_shutdown_assistant.World.{World}
use batch_shutdown_assistant.Agent.{Config, Heartbeat, Headers, agent_token}
use batch_shutdown_assistant.Agent.Handlers.{
  find_device, find_by_id, find_by_ip, known_device, handle_found, agent_heartbeat,
}
use batch_shutdown_assistant.Inventory.{
  DeviceFields, is_active, is_requested, apply_update, update_found, update_device,
  batch_delete_devices, device_stats, audit_device,
}
use batch_shutdown_assistant.Inventory.Listing.{
  device_responses, DeviceQuery, is_listed, address_of, key_le, sort_key_le, sorted_devices,
}
use batch_shutdown_assistant.Inventory.Secrets.{with_token, tokens_stay_hidden}
use batch_shutdown_assistant.Inventory.Pages.{address_le, sorted_devices_lem}
use batch_shutdown_assistant.Inventory.Names.{named_device_keeps_name}
use batch_shutdown_assistant.Inventory.Deletion.{batch_delete_devices_lem}

-- Socket 2 is dead.
abbrev delivers : ℕ → Bool
delivers ws = not (num_eq ws 2)

abbrev device : Device
device = record (new_device "d1" "tok" 0) {
  hostname = some "DESKTOP-7";
  status = DeviceStatus.online;
}

abbrev other : Device
other = record (new_device "d2" "tik" 0) { status = DeviceStatus.online }

abbrev db : Db
db = record empty_db { devices = device ∷ other ∷ [] }

abbrev world : World
world = record { db = db; manager = record new_manager { active_connections = ("d1", 1) ∷ [] } }

abbrev naming : DeviceFields
naming = record { hostname = some "Room 3"; ip = none; group_name = none }

abbrev config : Config
config = record { enroll_secret = "s3"; secret_key = "key" }

abbrev beat : Heartbeat
beat = record {
  device_id = some "d1";
  hostname = "DESKTOP-7";
  os = "Windows 11";
  ip = "10.0.0.1";
  rearm_count = pos 3;
  status = "online";
  agent_version = "1.4.5";
  timestamp = pos 0;
  sysinfo = none;
}

abbrev request : Headers
request = record { authorization = some "Bearer tok"; x_enroll_secret = none }

abbrev named : Device
named = record device { hostname = some "Room 3"; hostname_locked = true }

abbrev named_rows : List Device
named_rows = (update_device "a1" 5 "admin" "d1" naming db).1.devices

counts : device_stats (device ∷ other ∷ []) ≡ record { total = 2; online = 2; offline = 0 }
unfolding device_stats new_device
counts = refl

renamed : (update_device "a1" 5 "admin" "d1" naming db).0 ≡ ok named
unfolding update_device update_found apply_update new_device
renamed = refl

found : find_device beat named_rows ≡ ok (some named)
unfolding update_device update_found apply_update audit_device new_device put find_device find_by_id
    find_by_ip
found = refl

answered :
    (agent_heartbeat config 9 beat request "n" "t" named_rows).0
    ≡ ok (record { device_id = "d1"; status = "updated" })
unfolding agent_heartbeat handle_found known_device update_device update_found apply_update
    audit_device new_device put find_device find_by_id find_by_ip agent_token
answered = refl

named_device_keeps_name_example :
    (d' : Device) × (scalar_one_or_none
        (by_id "d1" (agent_heartbeat config 9 beat request "n" "t" named_rows).1)
      ≡ ok (some d'))
    × (d'.hostname ≡ some "Room 3")
named_device_keeps_name_example =
    named_device_keeps_name "a1" 5 "admin" "d1" naming db config 9 beat request "n" "t" renamed refl
      found answered refl

batch_delete_devices_lem_example :
    let (answer, w') =
      batch_delete_devices delivers (λ _. "c1") "a1" 5 "admin" ("d1" ∷ "d9" ∷ []) world in
    (any_row (λ d. is_requested ("d1" ∷ "d9" ∷ []) d && is_active d) w'.db.devices ≡ false)
    × (select (λ d. not (is_requested ("d1" ∷ "d9" ∷ []) d)) w'.db.devices
        ≡ select (λ d. not (is_requested ("d1" ∷ "d9" ∷ []) d)) db.devices)
    × (answer.0 ≡ length (select (is_requested ("d1" ∷ "d9" ∷ [])) w'.db.devices))
batch_delete_devices_lem_example =
    batch_delete_devices_lem delivers (λ _. "c1") "a1" 5 "admin" ("d1" ∷ "d9" ∷ []) world

abbrev ilike : String → String → Bool
ilike s t = s == t

abbrev query : DeviceQuery
query = record { status = some "online"; group = none; search = some ""; page = 1; size = 1 }

abbrev near : Device
near = record device { ip = some "10.0.0.1" }

abbrev far : Device
far = record other { ip = some "10.0.0.200" }

abbrev listed : List Device
listed = far ∷ device ∷ near ∷ []

in_order : sorted_devices ilike query listed ≡ near ∷ far ∷ device ∷ []
unfolding sorted_devices is_listed sort_key_le key_le new_device sort_by read_address
in_order = refl

sorted_devices_lem_example :
    Perm (sorted_devices ilike query listed) (select (is_listed ilike query) listed)
    × IsSortedBy
        (λ d e. address_le (address_of d) (address_of e))
        (sorted_devices ilike query listed)
sorted_devices_lem_example = sorted_devices_lem ilike query listed

abbrev blank : String → String
blank id = ""

tokens_stay_hidden_example :
    device_responses ilike query (map (with_token blank) listed)
    ≡ device_responses ilike query listed
tokens_stay_hidden_example = tokens_stay_hidden ilike query blank listed
