-- ===== src/System/Unmoved.antt =====
-- The handlers of devices leave tasks and results alone.
use batch_shutdown_assistant.Prelude.{
  ℕ, ◌+◌, ◌-◌, ltb, [], List, Option-cases, String, refl, Bool, Bool-cases, inl, inr, Option, none,
  some, Result, ok, err, scalar_one_or_none,
}
use batch_shutdown_assistant.Models.{Device, Db}
use batch_shutdown_assistant.Devices.{by_id}
use batch_shutdown_assistant.World.{World}
use batch_shutdown_assistant.Sockets.{may_open, open_socket}
use batch_shutdown_assistant.Inventory.{
  DeviceFields, audit_device, update_found, update_device, delete_found, delete_device,
}
use batch_shutdown_assistant.Addresses.{read_address}
use batch_shutdown_assistant.Uploads.{ends_with}
use batch_shutdown_assistant.Imports
use batch_shutdown_assistant.Imports.{
  IpRangeRequest, import_all, import_finish, import_between, import_ip_range,
}
use batch_shutdown_assistant.Imports.Csv
use batch_shutdown_assistant.Imports.Csv.{Row, import_rows, import_csv_finish, import_csv}
use batch_shutdown_assistant.System.Moves.{Kept, Kept-same}

pub Kept-open_socket :
    (now : ℕ) (device_id token : String) (websocket : ℕ) (w : World)
    → Kept w.db (open_socket now device_id token websocket w).1.db
unfolding open_socket
Kept-open_socket now device_id token websocket w =
    elim (Bool-cases (may_open token (scalar_one_or_none (by_id device_id w.db.devices)))) [
      | inl accepted ↦ rw accepted (Kept-same w.db _ refl refl)
      | inr refused ↦ rw refused (Kept-same w.db w.db refl refl)
    ]

module _ (fresh : String) (now : ℕ) (username device_id : String) where
  Kept-update_found :
      (payload : DeviceFields) (db : Db) (found : Result (Option Device))
      → Kept db (update_found fresh now username device_id payload db found).1
  unfolding update_found audit_device
  Kept-update_found payload db (err e) = Kept-same db db refl refl
  Kept-update_found payload db (ok none) = Kept-same db db refl refl
  Kept-update_found payload db (ok (some d)) = Kept-same db _ refl refl

  pub Kept-update_device :
      (payload : DeviceFields) (db : Db)
      → Kept db (update_device fresh now username device_id payload db).1
  unfolding update_device
  Kept-update_device payload db =
      Kept-update_found payload db (scalar_one_or_none (by_id device_id db.devices))

module _ (delivers : ℕ → Bool) (command_id fresh : String) (now : ℕ) (username device_id : String)
    (w : World) where
  Kept-delete_found :
      (found : Result (Option Device))
      → Kept w.db (delete_found delivers command_id fresh now username device_id w found).1.db
  unfolding delete_found audit_device
  Kept-delete_found (err e) = Kept-same w.db w.db refl refl
  Kept-delete_found (ok none) = Kept-same w.db w.db refl refl
  Kept-delete_found (ok (some d)) = Kept-same w.db _ refl refl

  pub Kept-delete_device :
      Kept w.db (delete_device delivers command_id fresh now username device_id w).1.db
  unfolding delete_device
  Kept-delete_device = Kept-delete_found (scalar_one_or_none (by_id device_id w.db.devices))

Kept-import_finish :
    (ids tokens : ℕ → String) (now : ℕ) (group : Option String) (fresh username : String)
    (payload : IpRangeRequest) (db : Db) (r : Result Imports.Progress)
    → Kept db (import_finish ids tokens now group fresh username payload db r).1
unfolding import_finish audit_device
Kept-import_finish ids tokens now group fresh username payload db (err e) =
    Kept-same db db refl refl
Kept-import_finish ids tokens now group fresh username payload db (ok p) = Kept-same db _ refl refl

Kept-import_between :
    (ids tokens : ℕ → String) (now : ℕ) (group : Option String) (fresh username : String)
    (payload : IpRangeRequest) (db : Db) (start end : ℕ)
    → Kept db (import_between ids tokens now group fresh username payload db start end).1
unfolding import_between
Kept-import_between ids tokens now group fresh username payload db start end =
    elim (Bool-cases (ltb end start)) [
      | inl less ↦ rw less (Kept-same db db refl refl)
      | inr up ↦ elim (Bool-cases (ltb 1024 (end - start))) [
        | inl large ↦ rw (up, large) (Kept-same db db refl refl)
        | inr small ↦
            rw (up, small)
              (Kept-import_finish ids tokens now group fresh username payload db (
                import_all ids tokens now group (end - start + 1) start
                  (record { added = 0; skipped = 0; devices = db.devices })))
      ]
    ]

pub Kept-import_ip_range :
    (ids tokens : ℕ → String) (message : String → String) (fresh : String) (now : ℕ)
    (username : String) (payload : IpRangeRequest) (db : Db)
    → Kept db (import_ip_range ids tokens message fresh now username payload db).1
unfolding import_ip_range
Kept-import_ip_range ids tokens message fresh now username payload db =
    elim (Option-cases (read_address payload.start_ip)) [
      | inl bad ↦ rw (bad, import_ip_range) (Kept-same db db refl refl)
      | inr (start, good) ↦ elim (Option-cases (read_address payload.end_ip)) [
        | inl bad ↦ rw (good, bad, import_ip_range) (Kept-same db db refl refl)
        | inr (end, good') ↦
            rw (good, good', import_ip_range)
              (Kept-import_between ids tokens now payload.group_name fresh username payload db start
                end)
      ]
    ]

Kept-import_csv_finish :
    (strip : String → String) (ids tokens : ℕ → String) (now : ℕ)
    (group fresh username filename : String) (db : Db) (r : Result Csv.Progress)
    → Kept db (import_csv_finish strip ids tokens now group fresh username filename db r).1
unfolding import_csv_finish audit_device
Kept-import_csv_finish strip ids tokens now group fresh username filename db (err e) =
    Kept-same db db refl refl
Kept-import_csv_finish strip ids tokens now group fresh username filename db (ok p) =
    Kept-same db _ refl refl

pub Kept-import_csv :
    (strip : String → String) (ids tokens : ℕ → String) (fresh : String) (now : ℕ)
    (username filename group : String) (rows : List Row) (db : Db)
    → Kept db (import_csv strip ids tokens fresh now username filename group rows db).1
unfolding import_csv
Kept-import_csv strip ids tokens fresh now username filename group rows db =
    elim (Bool-cases (ends_with filename ".csv")) [
      | inl named ↦ rw named (
          Kept-import_csv_finish strip ids tokens now group fresh username filename db (
            import_rows strip ids tokens now group 2 rows
              (record { added = 0; skipped = 0; errors = []; devices = db.devices })))
      | inr other ↦ rw other (Kept-same db db refl refl)
    ]
