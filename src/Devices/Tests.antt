-- ===== src/Devices/Tests.antt =====
-- Tests of the device table.
use batch_shutdown_assistant.Prelude.{◌≡◌, refl, not, some, List, [], ◌∷◌, select}
use batch_shutdown_assistant.Models.{Device, new_device}
use batch_shutdown_assistant.Devices.{latest, IsKeyed}
use batch_shutdown_assistant.Devices.Dedupe.{
  is_live_at, keep_latest, keep_each, duplicate_ips, dedupe_devices,
}
use batch_shutdown_assistant.Devices.Dedupe.Live.{to_list, is_addressed, dedupe_devices_lem}

abbrev old : Device
old = record (new_device "d1" "tok" 3) { ip = some "10.0.0.1" }

abbrev new : Device
new = record (new_device "d2" "tik" 8) { ip = some "10.0.0.1" }

abbrev other : Device
other = record (new_device "d3" "tak" 5) { ip = some "10.0.0.2" }

-- The older device of an address goes, the others stay.
dedupes : dedupe_devices (old ∷ new ∷ other ∷ []) ≡ new ∷ other ∷ []
unfolding dedupe_devices keep_latest keep_each duplicate_ips latest new_device
dedupes = refl

abbrev gone : Device
gone = record (new_device "d4" "tuk" 9) { ip = some "10.0.0.1"; deleted_at = some 9 }

abbrev table : List Device
table = old ∷ new ∷ gone ∷ []

table-IsKeyed : IsKeyed table
unfolding new_device
table-IsKeyed = (refl, (refl, (refl, tt)))

dedupe_devices_lem_example :
    (select (is_live_at "10.0.0.1") (dedupe_devices table)
      ≡ to_list (latest (select (is_live_at "10.0.0.1") table)))
    × (select (λ d. not (is_addressed d)) (dedupe_devices table)
        ≡ select (λ d. not (is_addressed d)) table)
dedupe_devices_lem_example = dedupe_devices_lem "10.0.0.1" table table-IsKeyed
