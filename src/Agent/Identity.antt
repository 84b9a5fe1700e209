-- ===== src/Agent/Identity.antt =====
-- What a heartbeat and a recovery keep of the device that they find, and who may take it over.
use batch_shutdown_assistant.Prelude.{
  ℕ, String, ◌≡◌, ◌≢◌, ◌⊎◌, refl, true, false, Option, none, some, List, Result, ok, err, Error,
  scalar_one_or_none, arith, eq_iff, if◌then◌else◌,
}
use batch_shutdown_assistant.Models.{Device, DeviceStatus}
use batch_shutdown_assistant.Devices.{by_id, put}
use batch_shutdown_assistant.Agent.{
  Config, Heartbeat, Headers, Recover, Response, enroll_secret_valid, agent_token, apply_sysinfo,
  adopt_device, refresh_device,
}
use batch_shutdown_assistant.Agent.Handlers.{
  find_device, known_device, handle_found, agent_heartbeat, recover_found, agent_recover,
}

-- What an operation on a row may not touch: the primary key, the address, the group, the lock on
-- the name and, under that lock, the name.
pub record SameOwner (d d' : Device) : Type 0 where
  pub id : d'.id ≡ d.id
  pub token : d'.token ≡ d.token
  pub ip : d'.ip ≡ d.ip
  pub group_name : d'.group_name ≡ d.group_name
  pub hostname_locked : d'.hostname_locked ≡ d.hostname_locked
  pub hostname : (d.hostname_locked ≡ false) ⊎ (d'.hostname ≡ d.hostname)
  pub deleted_at : d'.deleted_at ≡ d.deleted_at
  pub created_at : d'.created_at ≡ d.created_at

refresh_device-SameOwner :
    (now : ℕ) (d : Device) (payload : Heartbeat) → SameOwner d (refresh_device now d payload)
unfolding refresh_device apply_sysinfo
refresh_device-SameOwner now d payload = ground arith

last_heartbeat-refresh_device :
    (now : ℕ) (d : Device) (payload : Heartbeat)
    → (refresh_device now d payload).last_heartbeat ≡ now
unfolding refresh_device apply_sysinfo
last_heartbeat-refresh_device now d payload = ground arith

re-enrolled_not_updated : ◌≢◌ {A = String} "re-enrolled" "updated"
re-enrolled_not_updated = ground (arith, eq_iff "re-enrolled" "updated")

deleted_not_updated : ◌≢◌ {A = String} "deleted" "updated"
deleted_not_updated = ground (arith, eq_iff "deleted" "updated")

known_device-updated :
    (config : Config) (now : ℕ) (payload : Heartbeat) (request : Headers) (ds : List Device)
    (token : String) (d : Device) {r : Response}
    → (known_device config now payload request ds token d).0 ≡ ok r
    → r.status ≡ "updated"
    → (known_device config now payload request ds token d).1 ≡ put (refresh_device now d payload) ds
unfolding known_device
known_device-updated config now payload request ds token d h s =
    ground (arith, re-enrolled_not_updated, deleted_not_updated)

-- A heartbeat answered "updated" for the device that it finds writes that row alone, keeps its
-- owner (id, token, address, group, creation and deletion times), and keeps a name that is locked.
pub updated_keeps_owner :
    (config : Config) (now : ℕ) (payload : Heartbeat) (request : Headers)
    (fresh fresh_token : String) (ds : List Device) (d : Device) {r : Response}
    → find_device payload ds ≡ ok (some d)
    → (agent_heartbeat config now payload request fresh fresh_token ds).0 ≡ ok r
    → r.status ≡ "updated"
    → (d' : Device) × ((agent_heartbeat config now payload request fresh fresh_token ds).1
        ≡ put d' ds)
      × SameOwner d d'
      × (d'.last_heartbeat ≡ now)
unfolding agent_heartbeat handle_found
updated_keeps_owner config now payload request fresh fresh_token ds d found h s = (
  refresh_device now d payload,
  rw found (
      known_device-updated config now payload request ds (agent_token request) d (rw found at h) s),
  refresh_device-SameOwner now d payload,
  last_heartbeat-refresh_device now d payload,
)

adopt_device_fields :
    (now : ℕ) (d : Device) (payload : Heartbeat) (token : String)
    → let d' = adopt_device now d payload token in
      (d'.token ≡ token)
      × (d'.hostname ≡ some payload.hostname)
      × (d'.hostname_locked ≡ d.hostname_locked)
      × (d'.deleted_at ≡ none)
      × (d'.id ≡ d.id)
unfolding adopt_device apply_sysinfo
adopt_device_fields now d payload token = ground arith

-- A device that is found with another token, and that is deleted or met by the enrolment secret, is
-- taken over: its row gets the token and the name of the request, also where the name is locked, and
-- is no longer deleted.
pub mismatch_takes_over :
    (config : Config) (now : ℕ) (payload : Heartbeat) (request : Headers)
    (fresh fresh_token : String) (ds : List Device) (d : Device)
    → find_device payload ds ≡ ok (some d)
    → d.token ≢ ""
    → agent_token request ≢ d.token
    → (d.deleted_at ≢ none) ⊎ (enroll_secret_valid config request ≡ true)
    → (d' : Device) × (agent_heartbeat config now payload request fresh fresh_token ds
        ≡ (ok (record { device_id = d.id; status = "re-enrolled" }), put d' ds))
      × (d'.token ≡ agent_token request)
      × (d'.hostname ≡ some payload.hostname)
      × (d'.hostname_locked ≡ d.hostname_locked)
      × (d'.deleted_at ≡ none)
      × (d'.id ≡ d.id)
unfolding agent_heartbeat handle_found known_device
mismatch_takes_over config now payload request fresh fresh_token ds d found set other may =
    let d' = adopt_device now d payload (agent_token request) in
    let (token, name, lock, alive, id) = adopt_device_fields now d payload (agent_token request) in
    (
      d',
      rw found (ground (arith, eq_iff (agent_token request) d.token, eq_iff d.token "")),
      token,
      name,
      lock,
      alive,
      id,
    )

recover_found_needs_token :
    (now : ℕ) (payload : Recover) (ds : List Device) (token : String)
    (found : Result (Option Device)) {r : Response}
    → (recover_found now payload ds token found).0 ≡ ok r
    → (d : Device) × (d' : Device) × (found ≡ ok (some d))
      × ((d.token ≡ "") ⊎ (token ≡ d.token))
      × ((recover_found now payload ds token found).1 ≡ put d' ds)
      × SameOwner d d'
      × (d'.status ≡ DeviceStatus.online)
      × (d'.last_heartbeat ≡ now)
unfolding recover_found
recover_found_needs_token now payload ds token (err e) h = cc
recover_found_needs_token now payload ds token (ok none) h = cc
recover_found_needs_token now payload ds token (ok (some d)) h = (
  d,
  record d {
    hostname = if d.hostname_locked then d.hostname else some payload.hostname;
    status = DeviceStatus.online;
    last_heartbeat = now;
  },
  refl,
  ground (arith, eq_iff token d.token, eq_iff d.token ""),
  ground arith,
  ground arith,
  refl,
  refl,
)

-- A recovery that is answered was made for a device that has no token or that of the request; it
-- writes that row alone, keeps its owner and a locked name, and sets it online.
pub recover_needs_token :
    (now : ℕ) (payload : Recover) (request : Headers) (ds : List Device) {r : Response}
    → (agent_recover now payload request ds).0 ≡ ok r
    → (d : Device) × (d' : Device) × (scalar_one_or_none (by_id payload.device_id ds) ≡ ok (some d))
      × ((d.token ≡ "") ⊎ (agent_token request ≡ d.token))
      × ((agent_recover now payload request ds).1 ≡ put d' ds)
      × SameOwner d d'
      × (d'.status ≡ DeviceStatus.online)
      × (d'.last_heartbeat ≡ now)
unfolding agent_recover
recover_needs_token now payload request ds h =
    recover_found_needs_token now payload ds (agent_token request)
      (scalar_one_or_none (by_id payload.device_id ds)) h

-- A recovery that raises has written nothing.
pub recover_error_unchanged :
    (now : ℕ) (payload : Recover) (request : Headers) (ds : List Device) {e : Error}
    → (agent_recover now payload request ds).0 ≡ err e
    → (agent_recover now payload request ds).1 ≡ ds
unfolding agent_recover
recover_error_unchanged now payload request ds h = ground arith
