-- ===== src/Agent/Handlers.antt =====
-- server/api/agent_routes.py: the handlers of a heartbeat and of a recovery.
use batch_shutdown_assistant.Prelude.{
  ℕ, String, not, ◌||◌, ◌&&◌, Option, none, some, List, [], ◌∷◌, ◌++◌, is_some, select, Result, ok,
  err, http, scalar_one_or_none, ◌>>=◌, ◌==◌, if◌then◌else◌,
}
use batch_shutdown_assistant.Models.{DeviceStatus, Device, new_device}
use batch_shutdown_assistant.Devices.{has_ip, by_id, latest, put}
use batch_shutdown_assistant.Agent.{
  Config, Headers, Heartbeat, Recover, Response, adopt_device, agent_token, apply_sysinfo,
  enroll_secret_valid, refresh_device, reported_status,
}

-- `if payload.device_id: …`
unfoldable pub find_by_id : Heartbeat → List Device → Result (Option Device)
find_by_id payload devices = elim payload.device_id [
  | none ↦ ok none
  | some id ↦ if id == "" then ok none else scalar_one_or_none (by_id id devices)
]

-- `if device is None and payload.ip: …`
unfoldable pub find_by_ip : Heartbeat → List Device → Option Device → Option Device
find_by_ip payload devices (some device) = some device
find_by_ip payload devices none =
    if payload.ip == "" then none else latest (select (has_ip payload.ip) devices)

unfoldable pub find_device : Heartbeat → List Device → Result (Option Device)
unfolding find_by_id find_by_ip
find_device payload devices = do
  found ← find_by_id payload devices
  ok (find_by_ip payload devices found)

-- The branch of a known device: the four cases of the token test, in their order.
unfoldable pub known_device :
    Config → ℕ → Heartbeat → Headers → List Device → String → Device → Result Response × List Device
known_device config now payload request devices token device =
    if device.token == "" || token == device.token
    then (
      ok (record { device_id = device.id; status = "updated" }),
      put (refresh_device now device payload) devices,
    )
    else if is_some device.deleted_at || enroll_secret_valid config request
    then (
      ok (record { device_id = device.id; status = "re-enrolled" }),
      put (adopt_device now device payload token) devices,
    )
    else if is_some device.deleted_at
    then (ok (record { device_id = device.id; status = "deleted" }), devices)
    else (err (http 401 "Invalid agent token"), devices)

-- The row of a device that registers for the first time; `fresh` and `fresh_token` are the two
-- results of `uuid4()`.
unfoldable pub registered_device : ℕ → Heartbeat → String → String → String → Device
unfolding apply_sysinfo
registered_device now payload token fresh fresh_token =
    apply_sysinfo now
      (record (new_device fresh (if token == "" then fresh_token else token) now) {
        hostname = some payload.hostname;
        ip = some payload.ip;
        os_info = some payload.os;
        rearm_count = payload.rearm_count;
        agent_version = some payload.agent_version;
        status = reported_status payload;
      })
      payload.sysinfo

unfoldable pub unknown_device :
    Config
    → ℕ
    → Heartbeat
    → Headers
    → List Device
    → String
    → String
    → String
    → Result Response × List Device
unknown_device config now payload request devices token fresh fresh_token =
    if enroll_secret_valid config request
    then (
      ok (record { device_id = fresh; status = "created" }),
      devices ++ registered_device now payload token fresh fresh_token ∷ [],
    )
    else (err (http 401 "Enrollment secret required"), devices)

-- `_handle_heartbeat` after the search
unfoldable pub handle_found :
    Config
    → ℕ
    → Heartbeat
    → Headers
    → List Device
    → String
    → String
    → String
    → Result (Option Device)
    → Result Response × List Device
handle_found config now payload request devices token fresh fresh_token (err e) = (err e, devices)
handle_found config now payload request devices token fresh fresh_token (ok none) =
    unknown_device config now payload request devices token fresh fresh_token
handle_found config now payload request devices token fresh fresh_token (ok (some device)) =
    known_device config now payload request devices token device

-- `POST /api/agents/heartbeat`
unfoldable pub agent_heartbeat :
    Config → ℕ → Heartbeat → Headers → String → String → List Device → Result Response × List Device
agent_heartbeat config now payload request fresh fresh_token devices =
    handle_found config now payload request devices (agent_token request) fresh fresh_token
      (find_device payload devices)

-- `agent_recover` after the search
unfoldable pub recover_found :
    ℕ → Recover → List Device → String → Result (Option Device) → Result Response × List Device
recover_found now payload devices token (err e) = (err e, devices)
recover_found now payload devices token (ok none) = (err (http 404 "Device not found"), devices)
recover_found now payload devices token (ok (some device)) =
    if not (device.token == "") && not (token == device.token)
    then (err (http 401 "Invalid agent token"), devices)
    else (
      ok (record { device_id = payload.device_id; status = "recovered" }),
      put
          (record device {
            hostname = if device.hostname_locked then device.hostname else some payload.hostname;
            status = DeviceStatus.online;
            last_heartbeat = now;
          })
          devices,
    )

-- `POST /api/agents/recover`
unfoldable pub agent_recover : ℕ → Recover → Headers → List Device → Result Response × List Device
unfolding recover_found
agent_recover now payload request devices =
    recover_found now payload devices (agent_token request)
      (scalar_one_or_none (by_id payload.device_id devices))
