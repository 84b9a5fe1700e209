-- ===== src/Inventory/Names.antt =====
-- A name that the administrator gives a device stays, whatever name its agent reports.
use batch_shutdown_assistant.Prelude.{
  ℕ, String, ◌≡◌, ◌∙◌, sym, ap, refl, inl, inr, true, Option, none, some, List, Result, ok, err,
  scalar_one_or_none, arith,
}
use batch_shutdown_assistant.Models.{Device, Db}
use batch_shutdown_assistant.Devices.{by_id, put}
use batch_shutdown_assistant.Devices.Rows.{by_id-put_at, by_id-id}
use batch_shutdown_assistant.Agent.{Config, Heartbeat, Headers, Response}
use batch_shutdown_assistant.Agent.Handlers.{find_device, agent_heartbeat}
use batch_shutdown_assistant.Agent.Identity.{updated_keeps_owner}
use batch_shutdown_assistant.Inventory.{
  DeviceFields, apply_update, audit_device, update_found, update_device,
}

module _ (fresh : String) (now : ℕ) (username k : String) (payload : DeviceFields) (db : Db) where
  update_found_sound :
      (found : Result (Option Device)) {d : Device}
      → (update_found fresh now username k payload db found).0 ≡ ok d
      → (old : Device) × (found ≡ ok (some old))
        × (d ≡ apply_update payload old)
        × ((update_found fresh now username k payload db found).1.devices ≡ put d db.devices)
  unfolding update_found audit_device
  update_found_sound (err e) h = cc
  update_found_sound (ok none) h = cc
  update_found_sound (ok (some old)) {d} h =
      let same : apply_update payload old ≡ d = cc in
      (old, refl, sym same, ap (λ x. put x db.devices) same)

  apply_update-id : (d : Device) → (apply_update payload d).id ≡ d.id
  unfolding apply_update
  apply_update-id d = refl

  apply_update-named :
      (d : Device) {n : String}
      → payload.hostname ≡ some n
      → ((apply_update payload d).hostname ≡ some n)
        × ((apply_update payload d).hostname_locked ≡ true)
  unfolding apply_update
  apply_update-named d h = (rw h refl, rw h refl)

  abbrev updated_rows : List Device
  updated_rows = (update_device fresh now username k payload db).1.devices

  -- A device that the administrator names keeps the name through each heartbeat that finds it and is
  -- answered "updated", whatever name the heartbeat reports.
  pub named_device_keeps_name :
      {d : Device} {n : String} (config : Config) (later : ℕ) (beat : Heartbeat) (request : Headers)
      (fresh' fresh_token : String) {r : Response}
      → (update_device fresh now username k payload db).0 ≡ ok d
      → payload.hostname ≡ some n
      → find_device beat updated_rows ≡ ok (some d)
      → (agent_heartbeat config later beat request fresh' fresh_token updated_rows).0 ≡ ok r
      → r.status ≡ "updated"
      → (d' : Device) × (scalar_one_or_none
            (by_id k (agent_heartbeat config later beat request fresh' fresh_token updated_rows).1)
          ≡ ok (some d'))
        × (d'.hostname ≡ some n)
  unfolding update_device
  named_device_keeps_name {d} {n} config later beat request fresh' fresh_token h named found a s =
      let searched = scalar_one_or_none (by_id k db.devices) in
      let (old, there, same, rows) = update_found_sound searched h in
      let ds = (update_found fresh now username k payload db searched).1.devices in
      let (d', write, owner, time) =
        updated_keeps_owner config later beat request fresh' fresh_token ds d found a s in
      let id : d.id ≡ k =
        ap (λ (x : Device). x.id) same ∙ apply_update-id old ∙ by_id-id k db.devices there in
      let locked : d.hostname_locked ≡ true =
        ap (λ (x : Device). x.hostname_locked) same ∙ (apply_update-named old named).1 in
      let stored : scalar_one_or_none (by_id k ds) ≡ ok (some d) =
        rw rows (by_id-put_at k d db.devices id there) in
      (
        d',
        rw write (by_id-put_at k d' ds (owner.id ∙ id) stored),
        elim owner.hostname [
          | inl free ↦ absurd (ground arith)
          | inr kept ↦
              kept ∙ ap (λ (x : Device). x.hostname) same ∙ (apply_update-named old named).0
        ],
      )
