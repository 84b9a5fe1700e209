-- ===== src/Inventory/Deletion.antt =====
-- What the deletion of devices leaves in the table, and whom it commands to uninstall.
use batch_shutdown_assistant.Prelude.{
  ℕ, String, ◌≡◌, refl, Bool, false, not, ◌&&◌, List, [], ◌∷◌, length, select, update_where,
  any_row, arith,
}
use batch_shutdown_assistant.Models.{Device}
use batch_shutdown_assistant.Manager.{Manager}
use batch_shutdown_assistant.World.{World}
use batch_shutdown_assistant.Inventory.{
  is_active, is_requested, audit_device, mark_deleted, batch_delete_devices,
}

module _ (delivers : ℕ → Bool) (command_id fresh : String) (now : ℕ) (username k : String)
    (w : World) where
  mark_deleted-id : (d : Device) → (mark_deleted now d).id ≡ d.id
  unfolding mark_deleted
  mark_deleted-id d = refl

batch_rows :
    (device_ids : List String) (now : ℕ) (ds : List Device)
    → let ds' = update_where (is_requested device_ids) (mark_deleted now) ds in
      (any_row (λ d. is_requested device_ids d && is_active d) ds' ≡ false)
      × (select (λ d. not (is_requested device_ids d)) ds'
          ≡ select (λ d. not (is_requested device_ids d)) ds)
      × (length (select (is_requested device_ids) ds)
          ≡ length (select (is_requested device_ids) ds'))
unfolding mark_deleted
batch_rows device_ids now [] = (refl, refl, refl)
batch_rows device_ids now (d ∷ ds) =
    let (gone, kept, counted) = batch_rows device_ids now ds in ground (arith, gone, kept, counted)

-- A batch deletion leaves no requested device active and the others as they were; it answers with the
-- number of rows that it marked.
pub batch_delete_devices_lem :
    (delivers : ℕ → Bool) (uuid : ℕ → String) (fresh : String) (now : ℕ) (username : String)
    (device_ids : List String) (w : World)
    → let (answer, w') = batch_delete_devices delivers uuid fresh now username device_ids w in
      (any_row (λ d. is_requested device_ids d && is_active d) w'.db.devices ≡ false)
      × (select (λ d. not (is_requested device_ids d)) w'.db.devices
          ≡ select (λ d. not (is_requested device_ids d)) w.db.devices)
      × (answer.0 ≡ length (select (is_requested device_ids) w'.db.devices))
unfolding batch_delete_devices audit_device
batch_delete_devices_lem delivers uuid fresh now username device_ids w =
    batch_rows device_ids now w.db.devices
