-- ===== src/Models.antt =====
-- server/models/models.py: the tables and their enumerations. A `DateTime` is a number of
-- microseconds of wall time, a nullable column an `Option`. The column `updated_at` of devices and
-- tasks is written by the ORM alone and read nowhere; it is left out, and so are the ORM's
-- `relationship` attributes.
pub mod Values
mod Tests
use batch_shutdown_assistant.Prelude.{
  ℕ, String, Bool, false, Option, none, List, [], if◌then◌else◌, some, ◌==◌,
}

-- An `int`, which may be negative: `negsuc n` is -(n + 1).
pub data ℤ : Type 0 where
  pos : ℕ → ℤ
  negsuc : ℕ → ℤ

pub data DeviceStatus : Type 0 where
  online offline generalized recovering : DeviceStatus

pub data TaskType : Type 0 where
  sysprep sysprep_reboot shutdown reboot status upgrade file_push hostmsg sysinfo : TaskType

pub data TaskStatus : Type 0 where
  pending running completed failed cancelled : TaskStatus

-- `TaskType.value`
unfoldable pub task_type_value : TaskType → String
task_type_value sysprep = "sysprep"
task_type_value sysprep_reboot = "sysprep_reboot"
task_type_value shutdown = "shutdown"
task_type_value reboot = "reboot"
task_type_value status = "status"
task_type_value upgrade = "upgrade"
task_type_value file_push = "file_push"
task_type_value hostmsg = "hostmsg"
task_type_value sysinfo = "sysinfo"

-- `TaskType(s)`, where `none` is the `ValueError`
unfoldable pub task_type_of : String → Option TaskType
task_type_of s =
    if s == "sysprep"
    then some sysprep
    else if s == "sysprep_reboot"
    then some sysprep_reboot
    else if s == "shutdown"
    then some shutdown
    else if s == "reboot"
    then some reboot
    else if s == "status"
    then some status
    else if s == "upgrade"
    then some upgrade
    else if s == "file_push"
    then some file_push
    else if s == "hostmsg"
    then some hostmsg
    else if s == "sysinfo"
    then some sysinfo
    else none

pub record Device : Type 0 where
  pub id : String
  pub hostname : Option String
  pub hostname_locked : Bool
  pub ip : Option String
  pub os_info : Option String
  pub status : DeviceStatus
  pub group_name : Option String
  pub rearm_count : ℤ
  pub agent_version : Option String
  pub cpu_model : Option String
  pub cpu_cores : Option ℤ
  pub memory_total_mb : Option ℤ
  pub disk_total_gb : Option ℤ
  pub disk_free_gb : Option ℤ
  pub os_version : Option String
  pub serial_number : Option String
  pub mac_address : Option String
  pub manufacturer : Option String
  pub model : Option String
  pub sysinfo_updated_at : Option ℕ
  pub token : String
  pub last_heartbeat : ℕ
  pub created_at : ℕ
  pub deleted_at : Option ℕ

-- `Device(id=…, token=…)` with the defaults of every other column, flushed at `now`
unfoldable pub new_device : String → String → ℕ → Device
new_device id token now = record {
  id = id;
  hostname = none;
  hostname_locked = false;
  ip = none;
  os_info = none;
  status = DeviceStatus.offline;
  group_name = none;
  rearm_count = negsuc 0;
  agent_version = none;
  cpu_model = none;
  cpu_cores = none;
  memory_total_mb = none;
  disk_total_gb = none;
  disk_free_gb = none;
  os_version = none;
  serial_number = none;
  mac_address = none;
  manufacturer = none;
  model = none;
  sysinfo_updated_at = none;
  token = token;
  last_heartbeat = now;
  created_at = now;
  deleted_at = none;
}

pub record Task : Type 0 where
  pub id : String
  pub task_type : TaskType
  pub status : TaskStatus
  pub params : Option String
  pub created_at : ℕ

-- The status is a text: the agent's answer is stored as it is.
pub record TaskResult : Type 0 where
  pub id : String
  pub task_id : String
  pub device_id : String
  pub status : String
  pub output : Option String
  pub started_at : Option ℕ
  pub finished_at : Option ℕ

pub record User : Type 0 where
  pub id : String
  pub username : String
  pub password_hash : String
  pub role : String
  pub created_at : ℕ

pub record AuditLog : Type 0 where
  pub id : String
  pub username : Option String
  pub action : String
  pub target : Option String
  pub detail : Option String
  pub ip_address : Option String
  pub created_at : ℕ

-- The tables, each a list of rows in the order of insertion.
pub record Db : Type 0 where
  pub devices : List Device
  pub tasks : List Task
  pub results : List TaskResult
  pub users : List User
  pub audits : List AuditLog

abbrev pub empty_db : Db
empty_db = record { devices = []; tasks = []; results = []; users = []; audits = [] }
