-- ===== src/Inventory/Listing.antt =====
-- server/api/device_routes.py: `list_devices`. `ilike` is the database's test of a text against the
-- pattern `%search%`. A status is matched against the stored names of the enumeration; the ORM
-- translates a value of it to its name, and passes any other text on.
use Prim.Native.Nat.{Ordering}
use Prim.Native.String.{compare}
use batch_shutdown_assistant.Prelude.{
  ℕ, ◌-◌, ◌*◌, String, Bool, true, false, ◌&&◌, ◌||◌, Option, none, some, List, map, select,
  sort_by, page_of, ltb, num_eq, ◌==◌, if◌then◌else◌,
}
use batch_shutdown_assistant.Models.{ℤ, Device, DeviceStatus}
use batch_shutdown_assistant.Addresses.{read_address}
use batch_shutdown_assistant.Inventory.{is_active, text_or_empty}

-- The query; an empty text is no filter.
pub record DeviceQuery : Type 0 where
  pub status : Option String
  pub group : Option String
  pub search : Option String
  pub page : ℕ
  pub size : ℕ

abbrev pub status_value : DeviceStatus → String
status_value DeviceStatus.online = "online"
status_value DeviceStatus.offline = "offline"
status_value DeviceStatus.generalized = "generalized"
status_value DeviceStatus.recovering = "recovering"

abbrev pub status_name : DeviceStatus → String
status_name DeviceStatus.online = "ONLINE"
status_name DeviceStatus.offline = "OFFLINE"
status_name DeviceStatus.generalized = "GENERALIZED"
status_name DeviceStatus.recovering = "RECOVERING"

-- `if value: query = query.where(…)`
abbrev pub passes : Option String → (String → Bool) → Bool
passes none test = true
passes (some s) test = if s == "" then true else test s

-- A test of a nullable column, false on NULL.
abbrev pub holds : Option String → (String → Bool) → Bool
holds none test = false
holds (some s) test = test s

unfoldable pub is_listed : (String → String → Bool) → DeviceQuery → Device → Bool
is_listed ilike q d =
    is_active d
    && passes q.status (λ s. s == status_value d.status || s == status_name d.status)
    && passes q.group (λ g. holds d.group_name (λ h. h == g))
    && passes q.search (λ s. holds d.hostname (ilike s) || holds d.ip (ilike s))

-- The number of an address that `IPv4Address` accepts; `None` and other texts raise.
abbrev pub address_of : Device → Option ℕ
address_of d = elim d.ip [ none ↦ none | some ip ↦ read_address ip ]

abbrev pub text_le : String → String → Bool
text_le s t = elim (compare s t) [ Ordering.gt ↦ false | _ ↦ true ]

-- `ip_sort_key(d) <= ip_sort_key(e)`: tuples, compared part by part
unfoldable pub key_le : Option ℕ → Option ℕ → String → String → Bool
key_le (some m) (some n) s t = ltb m n || (num_eq m n && text_le s t)
key_le (some m) none s t = true
key_le none (some n) s t = false
key_le none none s t = text_le s t

unfoldable pub sort_key_le : Device → Device → Bool
unfolding key_le
sort_key_le d e =
    key_le (address_of d) (address_of e) (text_or_empty d.hostname) (text_or_empty e.hostname)

-- `sorted(…, key=ip_sort_key)`
unfoldable pub sorted_devices : (String → String → Bool) → DeviceQuery → List Device → List Device
unfolding is_listed sort_key_le
sorted_devices ilike q devices = sort_by sort_key_le (select (is_listed ilike q) devices)

-- `GET /api/devices`
unfoldable pub list_devices : (String → String → Bool) → DeviceQuery → List Device → List Device
unfolding sorted_devices
list_devices ilike q devices =
    page_of ((q.page - 1) * q.size) q.size (sorted_devices ilike q devices)

-- What the web framework sends of a row, for the list, a new device and an update.
pub record DeviceResponse : Type 0 where
  pub id : String
  pub hostname : Option String
  pub ip : Option String
  pub os_info : Option String
  pub status : String
  pub group_name : Option String
  pub rearm_count : ℤ
  pub agent_version : Option String
  pub last_heartbeat : ℕ
  pub created_at : ℕ
  pub cpu_model : Option String
  pub cpu_cores : Option ℤ
  pub memory_total_mb : Option ℤ
  pub disk_total_gb : Option ℤ
  pub disk_free_gb : Option ℤ
  pub os_version : Option String
  pub serial_number : Option String
  pub mac_address : Option String
  pub manufacturer : Option String
  pub model : Option String
  pub sysinfo_updated_at : Option ℕ

abbrev pub device_response : Device → DeviceResponse
device_response d = record {
  id = d.id;
  hostname = d.hostname;
  ip = d.ip;
  os_info = d.os_info;
  status = status_value d.status;
  group_name = d.group_name;
  rearm_count = d.rearm_count;
  agent_version = d.agent_version;
  last_heartbeat = d.last_heartbeat;
  created_at = d.created_at;
  cpu_model = d.cpu_model;
  cpu_cores = d.cpu_cores;
  memory_total_mb = d.memory_total_mb;
  disk_total_gb = d.disk_total_gb;
  disk_free_gb = d.disk_free_gb;
  os_version = d.os_version;
  serial_number = d.serial_number;
  mac_address = d.mac_address;
  manufacturer = d.manufacturer;
  model = d.model;
  sysinfo_updated_at = d.sysinfo_updated_at;
}

-- The answer to `GET /api/devices`.
unfoldable pub device_responses :
    (String → String → Bool) → DeviceQuery → List Device → List DeviceResponse
unfolding list_devices
device_responses ilike q devices = map device_response (list_devices ilike q devices)
