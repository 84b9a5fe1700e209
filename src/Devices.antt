-- ===== src/Devices.antt =====
-- The device table as the handlers query it: by primary key, by address, and the ORM's write of a
-- changed row. Two rows with one primary key are ruled out by `IsKeyed`, which every handler keeps.
pub mod Rows
pub mod Unique
pub mod Dedupe
mod Tests
use batch_shutdown_assistant.Prelude.{
  ℕ, String, ◌≡◌, Bool, false, Option, none, some, List, [], ◌∷◌, ◌++◌, leb, select, update_where,
  any_row, not, ◌==◌, if◌then◌else◌,
}
use batch_shutdown_assistant.Models.{Device}

-- `Device.ip == ip` in SQL, where NULL equals nothing
abbrev pub has_ip : String → Device → Bool
has_ip ip d = elim d.ip [ none ↦ false | some a ↦ a == ip ]

abbrev pub has_id : String → Device → Bool
has_id id d = d.id == id

-- `select(Device).where(Device.id == id)`
abbrev pub by_id : String → List Device → List Device
by_id id devices = select (has_id id) devices

-- `order_by(last_heartbeat.desc())`, `first()`: of rows with one heartbeat time the first.
unfoldable pub latest : List Device → Option Device
latest [] = none
latest (d ∷ ds) = elim (latest ds) [
  | none ↦ some d
  | some e ↦ if leb e.last_heartbeat d.last_heartbeat then some d else some e
]

-- The flush of a loaded object: UPDATE of its row by the primary key.
unfoldable pub put : Device → List Device → List Device
put d devices = update_where (has_id d.id) (λ _. d) devices

-- No two rows have one primary key.
abbrev pub IsKeyed : List Device → Type 0
IsKeyed [] = Unit
IsKeyed (d ∷ ds) = (any_row (has_id d.id) ds ≡ false) × IsKeyed ds
