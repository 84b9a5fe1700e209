-- ===== src/Deploy/Access.antt =====
-- A device that is made ready by the administrator is let in by its token alone.
use batch_shutdown_assistant.Prelude.{
  is_ascii, ap, Bool-cases, inl, inr, ℕ, String, ◌≡◌, ◌≢◌, refl, true, false, List, [], ◌∷◌, ◌++◌,
  any_row, arith, ◌==◌, eq_iff,
}
use batch_shutdown_assistant.Models.{Device, Db, new_device}
use batch_shutdown_assistant.Devices.{has_id, by_id}
use batch_shutdown_assistant.Manager.{Manager}
use batch_shutdown_assistant.Inventory.{audit_device}
use batch_shutdown_assistant.Sockets.{token_equal, may_open, open_socket}
use batch_shutdown_assistant.Deploy.{TokenRequest, generate_device_token}

by_id-append :
    (id : String) (d : Device) (ds : List Device)
    → any_row (has_id id) ds ≡ false
    → has_id id d ≡ true
    → by_id id (ds ++ d ∷ []) ≡ d ∷ []
by_id-append id d [] fresh own = rw own refl
by_id-append id d (e ∷ ds) fresh own =
    ground (arith, fresh, by_id-append id d ds (ground (arith, fresh)) own)

-- A token generated for a new device id, which is ASCII as uuid4 gives it, opens the socket of that id, and no other text does.
generated_token_opens_socket :
    (id token fresh : String) (now : ℕ) (username : String) (payload : TokenRequest) (db : Db)
    (m : Manager) (later websocket : ℕ) (provided : String)
    → any_row (has_id id) db.devices ≡ false
    → token ≢ ""
    → is_ascii token ≡ true
    → let db' = (generate_device_token id token fresh now username payload db).1 in
      (open_socket later id provided websocket (record { db = db'; manager = m })).0
      ≡ (token == provided)
unfolding generate_device_token open_socket may_open token_equal audit_device new_device
generated_token_opens_socket id token fresh now username payload db m later websocket provided new
      filled plain =
    let d = (generate_device_token id token fresh now username payload db).0 in
    rw (by_id-append id d db.devices new (ground (arith, eq_iff id id)))
      (elim (Bool-cases (token == provided)) [
        | inl same ↦
            let e : token ≡ provided = (eq_iff token provided).0 same in
            ground
              (arith, same, plain, ap is_ascii e, filled, eq_iff token "", eq_iff provided "", e)
        | inr other ↦ ground (arith, other, eq_iff token "", eq_iff provided "", plain)
      ])
