-- ===== src/Agent/Takeover.antt =====
-- What follows when a heartbeat without a token takes over a deleted device.
use batch_shutdown_assistant.Prelude.{
  Bool, true, false, [], ◌∷◌, all_rows, ap, inr, Option-cases, ◌==◌, ℕ, String, ◌≡◌, ◌≢◌, sym, ◌∙◌,
  inl, refl, none, some, List, ok, scalar_one_or_none, arith, eq_iff,
}
use batch_shutdown_assistant.Models.{Device}
use batch_shutdown_assistant.Devices.{by_id, put}
use batch_shutdown_assistant.Devices.Rows.{by_id-put_at, by_id-id}
use batch_shutdown_assistant.Agent.{
  refresh_device, apply_sysinfo, Config, Heartbeat, Headers, agent_token,
}
use batch_shutdown_assistant.Agent.Handlers.{
  find_by_id, find_by_ip, find_device, known_device, handle_found, agent_heartbeat,
}
use batch_shutdown_assistant.Agent.Identity.{mismatch_takes_over}

-- A heartbeat that names a device by its id finds the device.
pub find_device-by_id :
    (payload : Heartbeat) (ds : List Device) (k : String) (d : Device)
    → payload.device_id ≡ some k
    → k ≢ ""
    → scalar_one_or_none (by_id k ds) ≡ ok (some d)
    → find_device payload ds ≡ ok (some d)
unfolding find_device find_by_id find_by_ip
find_device-by_id payload ds k d named set found = rw named (ground (arith, eq_iff k ""))

-- A heartbeat, with its time and the ids that its handler would draw.
pub record Beat : Type 0 where
  pub now : ℕ
  pub payload : Heartbeat
  pub request : Headers
  pub fresh : String
  pub fresh_token : String

abbrev pub names : String → Beat → Bool
names k b = elim b.payload.device_id [ none ↦ false | some id ↦ id == k ]

-- The table after heartbeats, one after another.
unfoldable pub run_beats : Config → List Beat → List Device → List Device
run_beats config [] ds = ds
run_beats config (b ∷ bs) ds =
    run_beats config bs
      (agent_heartbeat config b.now b.payload b.request b.fresh b.fresh_token ds).1

-- The device has one row, and no token.
abbrev IsTokenless : String → List Device → Type 0
IsTokenless k ds = (d : Device) × (scalar_one_or_none (by_id k ds) ≡ ok (some d)) × (d.token ≡ "")

names-payload : (k : String) (b : Beat) → names k b ≡ true → b.payload.device_id ≡ some k
names-payload k b h = elim (Option-cases b.payload.device_id) [
  | inl unnamed ↦ absurd (cc (rw unnamed at h))
  | inr (id, named) ↦ named ∙ ap some ((eq_iff id k).0 (rw named at h))
]

IsTokenless-heartbeat :
    (config : Config) (k : String) (b : Beat) (ds : List Device)
    → k ≢ ""
    → names k b ≡ true
    → IsTokenless k ds
    → let (r, ds') = agent_heartbeat config b.now b.payload b.request b.fresh b.fresh_token ds in
      (r ≡ ok (record { device_id = k; status = "updated" })) × IsTokenless k ds'
unfolding agent_heartbeat handle_found known_device
IsTokenless-heartbeat config k b ds set named (d, found, empty) =
    let there = find_device-by_id b.payload ds k d (names-payload k b named) set found in
    let same : d.id ≡ k = by_id-id k ds found in
    let d' = refresh_device b.now d b.payload in
    let kept : (d'.id ≡ d.id) × (d'.token ≡ d.token) =
      unfold refresh_device apply_sysinfo in ground arith in
    let answer : agent_heartbeat config b.now b.payload b.request b.fresh b.fresh_token ds
        ≡ (ok (record { device_id = d.id; status = "updated" }), put d' ds) =
      rw there (ground (arith, eq_iff d.token "", empty)) in
    rw answer (rw same refl, (d', by_id-put_at k d' ds (kept.0 ∙ same) found, kept.1 ∙ empty))

run_beats-IsTokenless :
    (config : Config) (k : String) (bs : List Beat) (ds : List Device)
    → k ≢ ""
    → all_rows (names k) bs ≡ true
    → IsTokenless k ds
    → IsTokenless k (run_beats config bs ds)
unfolding run_beats
run_beats-IsTokenless config k [] ds set named bare = bare
run_beats-IsTokenless config k (b ∷ bs) ds set named bare =
    run_beats-IsTokenless config k bs _ set (ground (arith, named))
      (IsTokenless-heartbeat config k b ds set (ground (arith, named)) bare).1

-- A deleted device is taken over by a heartbeat without an Authorization header and without the
-- enrolment secret; after it, and after any further heartbeats that name the device, one more that
-- names it is accepted, whatever headers they have.
pub takeover_without_token :
    (config : Config) (now : ℕ) (payload : Heartbeat) (request : Headers)
    (fresh fresh_token : String) (ds : List Device) (k : String) (d : Device) (beats : List Beat)
    (last : Beat)
    → payload.device_id ≡ some k
    → k ≢ ""
    → scalar_one_or_none (by_id k ds) ≡ ok (some d)
    → d.token ≢ ""
    → d.deleted_at ≢ none
    → request.authorization ≡ none
    → all_rows (names k) beats ≡ true
    → names k last ≡ true
    → let (r, ds') = agent_heartbeat config now payload request fresh fresh_token ds in
      (r ≡ ok (record { device_id = k; status = "re-enrolled" }))
      × ((agent_heartbeat config last.now last.payload last.request last.fresh last.fresh_token
            (run_beats config beats ds')).0
          ≡ ok (record { device_id = k; status = "updated" }))
takeover_without_token config now payload request fresh fresh_token ds k d beats last named set
      found has_token gone bare all one =
    let same = by_id-id k ds found in
    let no_token : agent_token request ≡ "" = unfold agent_token in rw bare refl in
    let (d', taken, token, _, _, _, id) =
      mismatch_takes_over config now payload request fresh fresh_token ds d
        (find_device-by_id payload ds k d named set found) has_token
        (λ e. has_token (sym e ∙ no_token)) (inl gone) in
    let found' : scalar_one_or_none (by_id k (put d' ds)) ≡ ok (some d') =
      by_id-put_at k d' ds (id ∙ same) found in
    let still =
      run_beats-IsTokenless config k beats (put d' ds) set all (d', found', token ∙ no_token) in
    rw taken (
      rw same refl,
      (IsTokenless-heartbeat config k last (run_beats config beats (put d' ds)) set one still).0,
    )
