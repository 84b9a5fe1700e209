-- ===== src/Agent/Tests.antt =====
-- Tests of server/api/agent_routes.py.
use batch_shutdown_assistant.Prelude.{
  ◌≡◌, ◌≢◌, ◌⊎◌, inl, refl, String, true, none, some, [], ◌∷◌, is_some, ok, scalar_one_or_none,
  arith, eq_iff,
}
use batch_shutdown_assistant.Models.{pos, Device, DeviceStatus, new_device}
use batch_shutdown_assistant.Devices.{by_id, latest, put}
use batch_shutdown_assistant.Agent.{
  Config, Heartbeat, Headers, Recover, Response, enroll_secret_valid, agent_token, refresh_device,
}
use batch_shutdown_assistant.Agent.Handlers.{
  find_by_id, find_by_ip, find_device, known_device, handle_found, agent_heartbeat, agent_recover,
  registered_device,
}
use batch_shutdown_assistant.Agent.Outcomes.{heartbeat_needs_identity}
use batch_shutdown_assistant.Agent.Registration.{second_heartbeat_updates}
use batch_shutdown_assistant.Agent.Identity.{
  SameOwner, updated_keeps_owner, mismatch_takes_over, recover_needs_token,
}
use batch_shutdown_assistant.Agent.Takeover.{Beat, run_beats, takeover_without_token}

abbrev config : Config
config = record { enroll_secret = "s3"; secret_key = "key" }

abbrev beat : Heartbeat
beat = record {
  device_id = some "d1";
  hostname = "PC-1";
  os = "Windows 11";
  ip = "10.0.0.1";
  rearm_count = pos 3;
  status = "online";
  agent_version = "1.4.5";
  timestamp = pos 0;
  sysinfo = none;
}

-- The first heartbeat of an agent has no device id.
abbrev first_beat : Heartbeat
first_beat = record beat { device_id = none }

abbrev bare : Headers
bare = record { authorization = none; x_enroll_secret = none }

abbrev with_token : Headers
with_token = record { authorization = some "Bearer tok"; x_enroll_secret = none }

abbrev enrolling : Headers
enrolling = record { authorization = some "Bearer tok"; x_enroll_secret = some "s3" }

abbrev device : Device
device = record (new_device "d1" "tok" 0) { ip = some "10.0.0.1"; hostname = some "desk" }

abbrev deleted : Device
deleted = record device { deleted_at = some 7 }

abbrev answered : String → Response
answered s = record { device_id = "d1"; status = s }

not_empty : ◌≢◌ {A = String} "d1" ""
not_empty = ground (arith, eq_iff "d1" "")

tok_not_empty : ◌≢◌ {A = String} "tok" ""
tok_not_empty = ground (arith, eq_iff "tok" "")

no_token : agent_token bare ≡ ""
unfolding agent_token
no_token = refl

tok : agent_token with_token ≡ "tok"
unfolding agent_token
tok = refl

found : find_device beat (device ∷ []) ≡ ok (some device)
unfolding find_device find_by_id find_by_ip new_device
found = refl

updated :
    (agent_heartbeat config 5 beat with_token "n" "t" (device ∷ [])).0 ≡ ok (answered "updated")
unfolding agent_heartbeat handle_found known_device find_device find_by_id find_by_ip agent_token
    new_device
updated = refl

heartbeat_needs_identity_example :
    (d : Device) × (find_device beat (device ∷ []) ≡ ok (some d))
    × ((d.token ≡ "") ⊎ (agent_token with_token ≡ d.token) ⊎ (is_some d.deleted_at ≡ true))
unfolding enroll_secret_valid
heartbeat_needs_identity_example =
    heartbeat_needs_identity config 5 beat with_token "n" "t" (device ∷ []) refl updated

not_named : first_beat.device_id ≢ some "n"
not_named = λ e. cc

ip_not_empty : first_beat.ip ≢ ""
ip_not_empty = ground (arith, eq_iff "10.0.0.1" "")

enrolling_has_token : agent_token enrolling ≢ ""
unfolding agent_token
enrolling_has_token = ground (arith, eq_iff "tok" "")

second_heartbeat_updates_example :
    let d = registered_device 5 first_beat (agent_token enrolling) "n" "t" in
    let (r₁, ds₁) = agent_heartbeat config 5 first_beat enrolling "n" "t" [] in
    let (r₂, ds₂) = agent_heartbeat config 6 first_beat enrolling "n2" "t2" ds₁ in
    (r₁ ≡ ok (record { device_id = "n"; status = "created" }))
    × (ds₁ ≡ d ∷ [])
    × (r₂ ≡ ok (record { device_id = "n"; status = "updated" }))
    × (ds₂ ≡ put (refresh_device 6 d first_beat) ds₁)
unfolding find_device find_by_id find_by_ip latest enroll_secret_valid
second_heartbeat_updates_example =
    second_heartbeat_updates config 5 6 first_beat enrolling "n" "t" "n2" "t2" [] refl refl
      enrolling_has_token ip_not_empty not_named

updated_keeps_owner_example :
    (d' : Device) × ((agent_heartbeat config 5 beat with_token "n" "t" (device ∷ [])).1
      ≡ put d' (device ∷ []))
    × SameOwner device d'
    × (d'.last_heartbeat ≡ 5)
updated_keeps_owner_example =
    updated_keeps_owner config 5 beat with_token "n" "t" (device ∷ []) device found updated refl

device_has_token : device.token ≢ ""
unfolding new_device
device_has_token = tok_not_empty

other_token : agent_token bare ≢ device.token
unfolding agent_token new_device
other_token = ground (arith, eq_iff "" "tok")

found_deleted : find_device beat (deleted ∷ []) ≡ ok (some deleted)
unfolding find_device find_by_id find_by_ip new_device
found_deleted = refl

mismatch_takes_over_example :
    (d' : Device) × (agent_heartbeat config 9 beat bare "n" "t" (deleted ∷ [])
      ≡ (ok (record { device_id = deleted.id; status = "re-enrolled" }), put d' (deleted ∷ [])))
    × (d'.token ≡ agent_token bare)
    × (d'.hostname ≡ some "PC-1")
    × (d'.hostname_locked ≡ deleted.hostname_locked)
    × (d'.deleted_at ≡ none)
    × (d'.id ≡ deleted.id)
mismatch_takes_over_example =
    mismatch_takes_over config 9 beat bare "n" "t" (deleted ∷ []) deleted found_deleted
      device_has_token other_token (inl (λ e. cc))

abbrev next : Beat
next = record { now = 10; payload = beat; request = with_token; fresh = "n2"; fresh_token = "t2" }

abbrev last : Beat
last = record { now = 11; payload = beat; request = bare; fresh = "n3"; fresh_token = "t3" }

takeover_without_token_example :
    let (r, ds') = agent_heartbeat config 9 beat bare "n" "t" (deleted ∷ []) in
    (r ≡ ok (record { device_id = "d1"; status = "re-enrolled" }))
    × ((agent_heartbeat config 11 beat bare "n3" "t3" (run_beats config (next ∷ []) ds')).0
        ≡ ok (record { device_id = "d1"; status = "updated" }))
unfolding new_device
takeover_without_token_example =
    takeover_without_token config 9 beat bare "n" "t" (deleted ∷ []) "d1" deleted (next ∷ []) last
      refl not_empty refl device_has_token (λ e. cc) refl refl refl

abbrev recovery : Recover
recovery = record { device_id = "d1"; hostname = "PC-1" }

recovered : (agent_recover 5 recovery with_token (device ∷ [])).0 ≡ ok (answered "recovered")
unfolding agent_recover agent_token new_device
recovered = refl

recover_needs_token_example :
    (d : Device) × (d' : Device) × (scalar_one_or_none (by_id "d1" (device ∷ [])) ≡ ok (some d))
    × ((d.token ≡ "") ⊎ (agent_token with_token ≡ d.token))
    × ((agent_recover 5 recovery with_token (device ∷ [])).1 ≡ put d' (device ∷ []))
    × SameOwner d d'
    × (d'.status ≡ DeviceStatus.online)
    × (d'.last_heartbeat ≡ 5)
recover_needs_token_example = recover_needs_token 5 recovery with_token (device ∷ []) recovered
