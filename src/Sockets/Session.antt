-- ===== src/Sockets/Session.antt =====
-- The life of an agent's socket, and what its messages write.
use Prim.Native.String as Text
use text.Mathlib.TextLemmas.{cons-append}
use batch_shutdown_assistant.Prelude.{
  ℕ, zero, suc, ◌<◌, String, concat, len, take_chars, ◌≡◌, ◌≢◌, refl, ap, ◌∙◌, inl, inr, true,
  Option, none, some, ltb, Result, ok, err, scalar_one_or_none, arith, eq_iff, eq_refl, Bool-cases,
}
use batch_shutdown_assistant.Models.{Device, DeviceStatus}
use batch_shutdown_assistant.Devices.{by_id}
use batch_shutdown_assistant.Manager.{is_agent_online, disconnect_agent}
use batch_shutdown_assistant.Manager.Presence.{
  is_agent_online-disconnect_agent, is_agent_online-connect_agent,
}
use batch_shutdown_assistant.World.{World}
use batch_shutdown_assistant.Sockets.{
  token_equal, max_output_chars, limit_output, mark, may_open, open_socket, end_socket,
}

-- A token that is accepted is the one of the device that was found.
may_open_sound :
    (token : String) (found : Result (Option Device))
    → may_open token found ≡ true
    → (d : Device) × (found ≡ ok (some d)) × (d.token ≡ token) × (token ≢ "")
unfolding may_open token_equal
may_open_sound token (err e) h = cc
may_open_sound token (ok none) h = cc
may_open_sound token (ok (some d)) h =
    (d, refl, ground (arith, eq_iff d.token token), ground (arith, eq_iff token ""))

-- A socket is accepted only for a device in the table whose token is not empty and is the one given;
-- the manager then has a socket of the device.
pub open_socket_needs_token :
    (now : ℕ) (device_id token : String) (websocket : ℕ) (w : World)
    → (open_socket now device_id token websocket w).0 ≡ true
    → (d : Device) × (scalar_one_or_none (by_id device_id w.db.devices) ≡ ok (some d))
      × (d.token ≡ token)
      × (token ≢ "")
      × (is_agent_online device_id (open_socket now device_id token websocket w).1.manager ≡ true)
unfolding open_socket
open_socket_needs_token now device_id token websocket w h =
    elim (Bool-cases (may_open token (scalar_one_or_none (by_id device_id w.db.devices)))) [
      | inl may ↦
          let (d, found, own, set) = may_open_sound token _ may in
          (
            d,
            found,
            own,
            set,
            rw may (
                is_agent_online-connect_agent device_id device_id websocket w.manager
                ∙ rw (eq_refl device_id) refl),
          )
      | inr not_may ↦ absurd (cc (not_may, h))
    ]

-- The end of a socket always removes the device's socket and marks the device offline: the test for
-- another active connection never finds one.
end_socket_lem :
    (now : ℕ) (device_id : String) (w : World)
    → end_socket now device_id w ≡ record {
      db = record w.db { devices = mark DeviceStatus.offline now device_id w.db.devices };
      manager = disconnect_agent device_id w.manager;
    }
unfolding end_socket
end_socket_lem now device_id w =
    rw (is_agent_online-disconnect_agent device_id device_id w.manager)
      (rw (eq_refl device_id) refl)

take_chars-concat :
    (n : ℕ) (s t : String) → n < len s → take_chars n (concat (take_chars n s) t) ≡ take_chars n s
take_chars-concat zero s t h = refl
take_chars-concat (suc n) Text.[] t h = absurd (omega arith)
take_chars-concat (suc n) (Text.◌∷◌ c s) t h =
    rw (cons-append c (take_chars n s) t) (ap (Text.◌∷◌ c) (take_chars-concat n s t (omega arith)))

-- What is stored of an output agrees with it on the first 100000 characters.
pub limit_output_keeps :
    (output : String)
    → take_chars max_output_chars (limit_output output) ≡ take_chars max_output_chars output
unfolding limit_output
limit_output_keeps output = elim (Bool-cases (ltb max_output_chars (len output))) [
  | inl long ↦ rw long (take_chars-concat max_output_chars output _ (ground arith))
  | inr short ↦ rw short refl
]
