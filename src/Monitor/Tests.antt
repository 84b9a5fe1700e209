-- ===== src/Monitor/Tests.antt =====
-- Tests of the loops of server/main.py.
use batch_shutdown_assistant.Prelude.{
  sort_by, ◌≡◌, refl, true, none, some, [], ◌∷◌, ◌||◌, not, all_rows, select,
}
use batch_shutdown_assistant.Models.{Device, DeviceStatus, new_device, AuditLog}
use batch_shutdown_assistant.Auth.{Crypto}
use batch_shutdown_assistant.Inventory.{is_online}
use batch_shutdown_assistant.Monitor.{expire_devices, is_silent, maintain}
use batch_shutdown_assistant.Monitor.Silence.{is_within, expire_devices_lem}

-- The last heartbeat of one device is 20 seconds old, that of the other one second.
abbrev silent : Device
silent = record (new_device "d1" "tok" 100000000) { status = DeviceStatus.online }

abbrev loud : Device
loud = record (new_device "d2" "tok" 119000000) { status = DeviceStatus.online }

expires_silent :
    expire_devices 120000000 (silent ∷ loud ∷ [])
    ≡ record silent { status = DeviceStatus.offline } ∷ loud ∷ []
unfolding expire_devices is_silent new_device
expires_silent = refl

expire_devices_lem_example :
    (all_rows
        (λ d. not (is_online d) || is_within 120000000 16 d)
        (expire_devices 120000000 (silent ∷ loud ∷ []))
      ≡ true)
    × (select (is_within 120000000 15) (expire_devices 120000000 (silent ∷ loud ∷ []))
        ≡ select (is_within 120000000 15) (silent ∷ loud ∷ []))
expire_devices_lem_example = expire_devices_lem 120000000 (silent ∷ loud ∷ [])

abbrev crypto : Crypto
crypto = record { hash = λ p. p; check = λ _ _. true; encode = λ s _ _. s; decode = λ _ _. none }

abbrev old : AuditLog
old = record {
  id = "a1";
  username = some "admin";
  action = "login";
  target = none;
  detail = none;
  ip_address = none;
  created_at = 0;
}

maintains : maintain (λ _. true) 9000000000000000 (old ∷ []) (some []) ≡ ([], some [])
unfolding maintain sort_by
maintains = refl
