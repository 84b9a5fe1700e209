-- ===== src/Agent/Registration.antt =====
-- Registration: a second heartbeat of one agent meets the row that the first one created.
use batch_shutdown_assistant.Prelude.{
  ℕ, String, ◌≡◌, ◌≢◌, inl, inr, refl, true, Option, none, some, List, [], ◌∷◌, ◌++◌, select, ok,
  arith, eq_iff, eq_refl, Option-cases, Result-cases,
}
use batch_shutdown_assistant.Models.{Device, new_device}
use batch_shutdown_assistant.Devices.{has_ip, latest, put}
use batch_shutdown_assistant.Devices.Rows.{by_id-append_ne, latest-none, select-append}
use batch_shutdown_assistant.Agent.{
  Config, Heartbeat, Headers, enroll_secret_valid, agent_token, apply_sysinfo, refresh_device,
}
use batch_shutdown_assistant.Agent.Handlers.{
  find_by_id, find_by_ip, find_device, known_device, registered_device, unknown_device,
  handle_found, agent_heartbeat,
}
use batch_shutdown_assistant.Agent.Outcomes.{registered_device-id}

module _ (payload : Heartbeat) (d : Device) (ds : List Device) where
  find_by_id-append :
      payload.device_id ≢ some d.id → find_by_id payload (ds ++ d ∷ []) ≡ find_by_id payload ds
  unfolding find_by_id
  find_by_id-append ne = elim (Option-cases payload.device_id) [
    | inl e ↦ rw e refl
    | inr (k, e) ↦ rw e (ground (arith, by_id-append_ne k d ds))
  ]

  find_by_ip-append :
      (found : Option Device)
      → payload.ip ≢ ""
      → d.ip ≡ some payload.ip
      → find_by_ip payload ds found ≡ none
      → find_by_ip payload (ds ++ d ∷ []) found ≡ some d
  unfolding find_by_ip latest
  find_by_ip-append (some e) set at_ip missed = cc
  find_by_ip-append none set at_ip missed = rw (select-append (has_ip payload.ip) ds (d ∷ [])) (
      ground (
        arith,
        eq_iff payload.ip "",
        eq_refl payload.ip,
        latest-none (select (has_ip payload.ip) ds),
      ))

  -- A device that is not found is found, by its address, once its row is added.
  find_device-append :
      payload.device_id ≢ some d.id
      → payload.ip ≢ ""
      → d.ip ≡ some payload.ip
      → find_device payload ds ≡ ok none
      → find_device payload (ds ++ d ∷ []) ≡ ok (some d)
  unfolding find_device
  find_device-append ne set at_ip missed =
      rw (find_by_id-append ne) (elim (Result-cases (find_by_id payload ds)) [
        | inl (e, p) ↦ ground arith
        | inr (found, p) ↦ rw p (rw (find_by_ip-append found set at_ip (ground arith)) refl)
      ])

-- What the row of a new device carries of its agent.
registered_identity :
    (now : ℕ) (payload : Heartbeat) (token fresh fresh_token : String)
    → token ≢ ""
    → let d = registered_device now payload token fresh fresh_token in
      (d.token ≡ token) × (d.ip ≡ some payload.ip)
unfolding registered_device apply_sysinfo new_device
registered_identity now payload token fresh fresh_token has_token = ground (arith, eq_iff token "")

first_heartbeat_creates :
    (config : Config) (now : ℕ) (payload : Heartbeat) (request : Headers)
    (fresh fresh_token : String) (ds : List Device)
    → find_device payload ds ≡ ok none
    → enroll_secret_valid config request ≡ true
    → agent_heartbeat config now payload request fresh fresh_token ds ≡ (
      ok (record { device_id = fresh; status = "created" }),
      ds ++ registered_device now payload (agent_token request) fresh fresh_token ∷ [],
    )
unfolding agent_heartbeat handle_found unknown_device
first_heartbeat_creates config now payload request fresh fresh_token ds missed secret =
    rw missed (rw secret refl)

-- A heartbeat with the token of the device that it finds is a refresh.
pub own_heartbeat_updates :
    (config : Config) (now : ℕ) (payload : Heartbeat) (request : Headers)
    (fresh fresh_token : String) (ds : List Device) (d : Device)
    → find_device payload ds ≡ ok (some d)
    → d.token ≡ agent_token request
    → agent_heartbeat config now payload request fresh fresh_token ds ≡ (
      ok (record { device_id = d.id; status = "updated" }),
      put (refresh_device now d payload) ds,
    )
unfolding agent_heartbeat handle_found known_device
own_heartbeat_updates config now payload request fresh fresh_token ds d found own =
    rw found (ground (arith, eq_iff (agent_token request) d.token))

-- Two heartbeats of an agent that no row matches, with the enrolment secret, a token and an
-- address: the first creates a row, and the second updates that row and adds none.
pub second_heartbeat_updates :
    (config : Config) (now later : ℕ) (payload : Heartbeat) (request : Headers)
    (fresh fresh_token fresh' fresh_token' : String) (ds : List Device)
    → find_device payload ds ≡ ok none
    → enroll_secret_valid config request ≡ true
    → agent_token request ≢ ""
    → payload.ip ≢ ""
    → payload.device_id ≢ some fresh
    → let d = registered_device now payload (agent_token request) fresh fresh_token in
      let (r₁, ds₁) = agent_heartbeat config now payload request fresh fresh_token ds in
      let (r₂, ds₂) = agent_heartbeat config later payload request fresh' fresh_token' ds₁ in
      (r₁ ≡ ok (record { device_id = fresh; status = "created" }))
      × (ds₁ ≡ ds ++ d ∷ [])
      × (r₂ ≡ ok (record { device_id = fresh; status = "updated" }))
      × (ds₂ ≡ put (refresh_device later d payload) ds₁)
second_heartbeat_updates config now later payload request fresh fresh_token fresh' fresh_token' ds
      missed secret has_token set ne =
    let d = registered_device now payload (agent_token request) fresh fresh_token in
    let i = registered_device-id now payload (agent_token request) fresh fresh_token in
    let (own, at_ip) =
      registered_identity now payload (agent_token request) fresh fresh_token has_token in
    let first =
      first_heartbeat_creates config now payload request fresh fresh_token ds missed secret in
    let again =
      own_heartbeat_updates config later payload request fresh' fresh_token' (ds ++ d ∷ []) d
        (find_device-append payload d ds (rw i ne) set at_ip missed) own in
    rw first (refl, refl, rw again (rw i refl), rw again refl)
