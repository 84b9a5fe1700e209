-- ===== src/Database.antt =====
-- server/database.py: the migration at the start of the server. Of the schema the names of the tables
-- and the columns of `devices` with their types are modelled; an added column is NULL in each row, or
-- its default, as the model's devices have it already.
pub mod Restart
mod Tests
use batch_shutdown_assistant.Prelude.{
  String, Bool, List, [], ◌∷◌, ◌++◌, any_row, ◌==◌, if◌then◌else◌,
}
use batch_shutdown_assistant.Models.{Device}
use batch_shutdown_assistant.Devices.Dedupe.{dedupe_devices}

abbrev pub Column : Type 0
Column = String × String

pub record Schema : Type 0 where
  pub tables : List String
  pub columns : List Column

abbrev pub has_column : String → List Column → Bool
has_column name columns = any_row (λ (c : Column). c.0 == name) columns

abbrev pub additions : List Column
additions =
    ("cpu_model", "VARCHAR(255)")
    ∷ ("cpu_cores", "INTEGER")
    ∷ ("memory_total_mb", "INTEGER")
    ∷ ("disk_total_gb", "INTEGER")
    ∷ ("disk_free_gb", "INTEGER")
    ∷ ("os_version", "VARCHAR(255)")
    ∷ ("serial_number", "VARCHAR(255)")
    ∷ ("mac_address", "VARCHAR(255)")
    ∷ ("manufacturer", "VARCHAR(255)")
    ∷ ("model", "VARCHAR(255)")
    ∷ ("sysinfo_updated_at", "DATETIME")
    ∷ ("hostname_locked", "BOOLEAN DEFAULT 0")
    ∷ []

-- `ALTER TABLE devices ADD COLUMN`, for each that is not among the columns before the loop
unfoldable pub add_columns : List Column → List Column → List Column → List Column
add_columns existing [] columns = columns
add_columns existing ((name, type) ∷ rest) columns =
    add_columns existing rest
      (if has_column name existing then columns else columns ++ (name, type) ∷ [])

-- `_migrate`
unfoldable pub migrate : Schema → List Device → Schema × List Device
unfolding add_columns
migrate s devices =
    if any_row (λ t. t == "devices") s.tables
    then (record s { columns = add_columns s.columns additions s.columns }, dedupe_devices devices)
    else (s, devices)
