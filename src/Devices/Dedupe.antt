-- ===== src/Devices/Dedupe.antt =====
-- server/database.py: `_dedupe_devices`, which leaves one device to each address when the server
-- starts. An error of the first query, which ends it, is not modelled.
pub mod Live
use batch_shutdown_assistant.Prelude.{
  String, Bool, not, ◌&&◌, Option, none, some, List, [], ◌∷◌, length, select, any_row, is_some, ltb,
  ◌==◌, if◌then◌else◌,
}
use batch_shutdown_assistant.Models.{Device}
use batch_shutdown_assistant.Devices.{has_ip, latest}

-- `ip = :ip AND deleted_at IS NULL`
abbrev pub is_live_at : String → Device → Bool
is_live_at ip d = has_ip ip d && not (is_some d.deleted_at)

-- The ids after the first are deleted.
unfoldable pub keep_first : String → List Device → Option Device → List Device
keep_first ip devices none = devices
keep_first ip devices (some first) =
    let rest = select (λ d. not (d.id == first.id)) (select (is_live_at ip) devices) in
    select (λ d. not (any_row (λ dup. dup.id == d.id) rest)) devices

-- The first is that of the latest heartbeat.
unfoldable pub keep_latest : String → List Device → List Device
unfolding keep_first
keep_latest ip devices = keep_first ip devices (latest (select (is_live_at ip) devices))

-- `GROUP BY ip HAVING COUNT(*) > 1`, an address for each group
unfoldable pub duplicate_ips : List Device → List Device → List String
duplicate_ips all [] = []
duplicate_ips all (d ∷ ds) =
    let rest = duplicate_ips all ds in
    elim d.ip [
      | none ↦ rest
      | some ip ↦
          if is_live_at ip d
            && ltb 1 (length (select (is_live_at ip) all))
            && not (any_row (λ other. other == ip) rest)
          then ip ∷ rest
          else rest
    ]

unfoldable pub keep_each : List String → List Device → List Device
unfolding keep_latest
keep_each [] devices = devices
keep_each (ip ∷ ips) devices = keep_each ips (keep_latest ip devices)

-- `_dedupe_devices`
unfoldable pub dedupe_devices : List Device → List Device
unfolding duplicate_ips keep_each
dedupe_devices devices = keep_each (duplicate_ips devices devices) devices
