-- ===== src/Agent/Outcomes.antt =====
-- What a heartbeat answers and writes, on every branch.
use batch_shutdown_assistant.Prelude.{
  ℕ, String, ◌≡◌, ◌≢◌, ◌⊎◌, refl, true, false, Option, none, some, List, [], ◌∷◌, length, is_some,
  any_row, Result, ok, err, Error, ◌==◌, arith, eq_iff, ◌+◌, if◌then◌else◌, length-append,
}
use batch_shutdown_assistant.Models.{Device, new_device}
use batch_shutdown_assistant.Devices.{has_id, by_id, IsKeyed}
use batch_shutdown_assistant.Devices.Rows.{
  length-put, put-IsKeyed, append-IsKeyed, by_id-put_ne, by_id-append_ne,
}
use batch_shutdown_assistant.Agent.{
  Config, Heartbeat, Headers, Response, enroll_secret_valid, agent_token, apply_sysinfo,
  adopt_device, refresh_device,
}
use batch_shutdown_assistant.Agent.Handlers.{
  find_device, known_device, registered_device, unknown_device, handle_found, agent_heartbeat,
}

-- The primary keys of the rows that a heartbeat writes.
pub adopt_device-id :
    (now : ℕ) (d : Device) (payload : Heartbeat) (token : String)
    → (adopt_device now d payload token).id ≡ d.id
unfolding adopt_device apply_sysinfo
adopt_device-id now d payload token = ground arith

pub refresh_device-id :
    (now : ℕ) (d : Device) (payload : Heartbeat) → (refresh_device now d payload).id ≡ d.id
unfolding refresh_device apply_sysinfo
refresh_device-id now d payload = ground arith

pub registered_device-id :
    (now : ℕ) (payload : Heartbeat) (token fresh fresh_token : String)
    → (registered_device now payload token fresh fresh_token).id ≡ fresh
unfolding registered_device apply_sysinfo new_device
registered_device-id now payload token fresh fresh_token = ground arith

updated_not_created : ◌≢◌ {A = String} "updated" "created"
updated_not_created = ground (arith, eq_iff "updated" "created")

re-enrolled_not_created : ◌≢◌ {A = String} "re-enrolled" "created"
re-enrolled_not_created = ground (arith, eq_iff "re-enrolled" "created")

module _ (config : Config) (now : ℕ) (payload : Heartbeat) (request : Headers) where
  module _ (fresh fresh_token : String) (devices : List Device) where
    abbrev answer : Result Response × List Device
    answer = agent_heartbeat config now payload request fresh fresh_token devices

    -- A heartbeat that raises has written nothing.
    pub heartbeat_error_unchanged : {e : Error} → answer.0 ≡ err e → answer.1 ≡ devices
    unfolding agent_heartbeat handle_found known_device unknown_device
    heartbeat_error_unchanged h = ground arith

    -- A heartbeat that is answered says that it updated, re-enrolled or created a device; the answer
    -- "deleted" is never given.
    heartbeat_statuses :
        {r : Response}
        → answer.0 ≡ ok r
        → (r.status ≡ "updated") ⊎ (r.status ≡ "re-enrolled") ⊎ (r.status ≡ "created")
    unfolding agent_heartbeat handle_found known_device unknown_device
    heartbeat_statuses h = ground arith

    found_needs_identity :
        (found : Result (Option Device)) {r : Response}
        → enroll_secret_valid config request ≡ false
        → (handle_found config now payload request devices
            (agent_token request)
            fresh
            fresh_token
            found).0
          ≡ ok r
        → (d : Device) × (found ≡ ok (some d))
          × ((d.token ≡ "") ⊎ (agent_token request ≡ d.token) ⊎ (is_some d.deleted_at ≡ true))
    unfolding handle_found known_device unknown_device
    found_needs_identity (err e) s h = cc
    found_needs_identity (ok none) s h = ground arith
    found_needs_identity (ok (some d)) s h =
        (d, refl, ground (arith, eq_iff d.token "", eq_iff (agent_token request) d.token))

    -- Without the enrolment secret a heartbeat is answered only for a device that is found and that
    -- has no token, has the token of the request, or is deleted.
    pub heartbeat_needs_identity :
        {r : Response}
        → enroll_secret_valid config request ≡ false
        → answer.0 ≡ ok r
        → (d : Device) × (find_device payload devices ≡ ok (some d))
          × ((d.token ≡ "") ⊎ (agent_token request ≡ d.token) ⊎ (is_some d.deleted_at ≡ true))
    unfolding agent_heartbeat
    heartbeat_needs_identity s h = found_needs_identity (find_device payload devices) s h

    abbrev handled : Result (Option Device) → Result Response × List Device
    handled =
        handle_found config now payload request devices (agent_token request) fresh fresh_token

    abbrev adopted : Device → Device
    adopted d = adopt_device now d payload (agent_token request)

    abbrev refreshed : Device → Device
    refreshed d = refresh_device now d payload

    abbrev registered : Device
    registered = registered_device now payload (agent_token request) fresh fresh_token

    handled-IsKeyed :
        (found : Result (Option Device))
        → any_row (has_id fresh) devices ≡ false
        → IsKeyed devices
        → IsKeyed (handled found).1
    unfolding handle_found known_device unknown_device
    handled-IsKeyed (err e) new keyed = keyed
    handled-IsKeyed (ok none) new keyed = ground (
      arith,
      append-IsKeyed registered devices,
      registered_device-id now payload (agent_token request) fresh fresh_token,
    )
    handled-IsKeyed (ok (some d)) new keyed =
        ground
          (arith, put-IsKeyed (adopted d) devices keyed, put-IsKeyed (refreshed d) devices keyed)

    length-handled :
        (found : Result (Option Device)) {r : Response}
        → (handled found).0 ≡ ok r
        → length (handled found).1
          ≡ (if r.status == "created" then length devices + 1 else length devices)
    unfolding handle_found known_device unknown_device
    length-handled (err e) h = cc
    length-handled (ok none) {r} h =
        ground (arith, length-append devices (registered ∷ []), eq_iff r.status "created")
    length-handled (ok (some d)) {r} h = ground (
      arith,
      length-put (adopted d) devices,
      length-put (refreshed d) devices,
      eq_iff r.status "created",
      updated_not_created,
      re-enrolled_not_created,
    )

    handled_others :
        (found : Result (Option Device)) (k : String) {r : Response}
        → (handled found).0 ≡ ok r
        → k ≢ r.device_id
        → by_id k (handled found).1 ≡ by_id k devices
    unfolding handle_found known_device unknown_device
    handled_others (err e) k h ne = cc
    handled_others (ok none) k h ne = ground (
      arith,
      by_id-append_ne k registered devices,
      registered_device-id now payload (agent_token request) fresh fresh_token,
    )
    handled_others (ok (some d)) k h ne = ground (
      arith,
      by_id-put_ne k (adopted d) devices,
      by_id-put_ne k (refreshed d) devices,
      adopt_device-id now d payload (agent_token request),
      refresh_device-id now d payload,
    )

    -- Primary keys stay unique if the new id is in no row.
    pub heartbeat-IsKeyed :
        any_row (has_id fresh) devices ≡ false → IsKeyed devices → IsKeyed answer.1
    unfolding agent_heartbeat
    heartbeat-IsKeyed new keyed = handled-IsKeyed (find_device payload devices) new keyed

    -- The table grows by one row exactly when the answer is "created".
    pub length-heartbeat :
        {r : Response}
        → answer.0 ≡ ok r
        → length answer.1 ≡ (if r.status == "created" then length devices + 1 else length devices)
    unfolding agent_heartbeat
    length-heartbeat h = length-handled (find_device payload devices) h

    -- A heartbeat writes no row but the one that it names in its answer.
    heartbeat_others :
        (k : String) {r : Response}
        → answer.0 ≡ ok r
        → k ≢ r.device_id
        → by_id k answer.1 ≡ by_id k devices
    unfolding agent_heartbeat
    heartbeat_others k h ne = handled_others (find_device payload devices) k h ne
