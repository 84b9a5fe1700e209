-- ===== src/Agent.antt =====
-- server/api/agent_routes.py: heartbeats, registration and recovery of agents.
-- The registration lock runs one heartbeat at a time, so a heartbeat is one step on the device
-- table. A raise comes before any write, and leaves the table as it was. `now` is the time that
-- `now_bjt()` returns during the request.
pub mod Handlers
pub mod Outcomes
pub mod Registration
pub mod Identity
pub mod Takeover
mod Tests
use batch_shutdown_assistant.Prelude.{
  ℕ, String, concat, drop_chars, starts_with, Bool, true, false, not, ◌||◌, ◌&&◌, Option, none,
  some, List, [], ◌∷◌, ◌++◌, is_some, select, Result, ok, err, http, scalar_one_or_none, ◌>>=◌,
  ◌==◌, if◌then◌else◌,
}
use batch_shutdown_assistant.Models.{ℤ, DeviceStatus, Device, new_device}
use batch_shutdown_assistant.Devices.{has_ip, by_id, latest, put}

-- server/config.py: the two secrets
pub record Config : Type 0 where
  pub enroll_secret : String
  pub secret_key : String

-- `_enroll_secret`
unfoldable pub required_secret : Config → String
required_secret c = if c.enroll_secret == "" then concat "enroll-" c.secret_key else c.enroll_secret

pub record SysInfo : Type 0 where
  pub cpu_model : Option String
  pub cpu_cores : Option ℤ
  pub memory_total_mb : Option ℤ
  pub disk_total_gb : Option ℤ
  pub disk_free_gb : Option ℤ
  pub os_version : Option String
  pub serial_number : Option String
  pub mac_address : Option String
  pub manufacturer : Option String
  pub model : Option String

pub record Heartbeat : Type 0 where
  pub device_id : Option String
  pub hostname : String
  pub os : String
  pub ip : String
  pub rearm_count : ℤ
  pub status : String
  pub agent_version : String
  pub timestamp : ℤ
  pub sysinfo : Option SysInfo

-- The headers that the handlers read.
pub record Headers : Type 0 where
  pub authorization : Option String
  pub x_enroll_secret : Option String

pub record Recover : Type 0 where
  pub device_id : String
  pub hostname : String

pub record Response : Type 0 where
  pub device_id : String
  pub status : String

-- `_apply_sysinfo`
unfoldable pub apply_sysinfo : ℕ → Device → Option SysInfo → Device
apply_sysinfo now device none = device
apply_sysinfo now device (some info) = record device {
  cpu_model = info.cpu_model;
  cpu_cores = info.cpu_cores;
  memory_total_mb = info.memory_total_mb;
  disk_total_gb = info.disk_total_gb;
  disk_free_gb = info.disk_free_gb;
  os_version = info.os_version;
  serial_number = info.serial_number;
  mac_address = info.mac_address;
  manufacturer = info.manufacturer;
  model = info.model;
  sysinfo_updated_at = some now;
}

-- `headers.get(name, "")`
abbrev pub header : Option String → String
header none = ""
header (some s) = s

-- `_enroll_secret_valid`
unfoldable pub enroll_secret_valid : Config → Headers → Bool
unfolding required_secret
enroll_secret_valid config request = header request.x_enroll_secret == required_secret config

-- The agent's token from the Authorization header, "" without one.
unfoldable pub agent_token : Headers → String
agent_token request =
    if starts_with (header request.authorization) "Bearer "
    then drop_chars 7 (header request.authorization)
    else ""

-- `DeviceStatus.ONLINE if payload.status == "online" else DeviceStatus.OFFLINE`
abbrev pub reported_status : Heartbeat → DeviceStatus
reported_status payload =
    if payload.status == "online" then DeviceStatus.online else DeviceStatus.offline

-- `_adopt_device`
unfoldable pub adopt_device : ℕ → Device → Heartbeat → String → Device
unfolding apply_sysinfo
adopt_device now device payload token =
    apply_sysinfo now
      (record device {
        hostname = some payload.hostname;
        os_info = some payload.os;
        ip = if payload.ip == "" then device.ip else some payload.ip;
        rearm_count = payload.rearm_count;
        agent_version = some payload.agent_version;
        last_heartbeat = now;
        token = token;
        deleted_at = none;
        status = reported_status payload;
      })
      payload.sysinfo

-- The writes of a heartbeat whose token is valid.
unfoldable pub refresh_device : ℕ → Device → Heartbeat → Device
unfolding apply_sysinfo
refresh_device now device payload =
    apply_sysinfo now
      (record device {
        hostname = if device.hostname_locked then device.hostname else some payload.hostname;
        os_info = some payload.os;
        rearm_count = payload.rearm_count;
        agent_version = some payload.agent_version;
        last_heartbeat = now;
        status = if payload.status == "online" then DeviceStatus.online else device.status;
      })
      payload.sysinfo
