-- ===== src/Manager/Presence.antt =====
-- Which agents are online after connections and disconnections.
use batch_shutdown_assistant.Prelude.{
  ℕ, String, ◌≡◌, refl, Bool, true, false, [], ◌∷◌, ◌++◌, lookup-insert, lookup-erase, arith,
  eq_refl, ◌==◌, if◌then◌else◌,
}
use batch_shutdown_assistant.Manager.{
  Command, command, Manager, connect_agent, disconnect_agent, send_command, is_agent_online,
}

-- After `connect_agent` the device is online, and no other device has changed.
pub is_agent_online-connect_agent :
    (d k : String) (ws : ℕ) (m : Manager)
    → is_agent_online k (connect_agent d ws m) ≡ (if d == k then true else is_agent_online k m)
unfolding is_agent_online connect_agent
is_agent_online-connect_agent d k ws m = rw lookup-insert (ground arith)

-- After `disconnect_agent` the device is offline, and no other device has changed.
pub is_agent_online-disconnect_agent :
    (d k : String) (m : Manager)
    → is_agent_online k (disconnect_agent d m) ≡ (if d == k then false else is_agent_online k m)
unfolding is_agent_online disconnect_agent
is_agent_online-disconnect_agent d k m = rw lookup-erase (ground arith)

-- A command goes to the socket that connected last, and to no other; it is reported as sent exactly
-- if that socket delivers.
pub send_command-connect_agent :
    (delivers : ℕ → Bool) (d : String) (ws : ℕ) (c : Command) (m : Manager)
    → let m' = connect_agent d ws m in
      send_command delivers d c m' ≡ (
        delivers ws,
        record m' { sent = if delivers ws then m.sent ++ (ws, command c) ∷ [] else m.sent },
      )
unfolding send_command connect_agent
send_command-connect_agent delivers d ws c m = rw (lookup-insert, eq_refl) (ground arith)

-- A device that connects again before its first socket's handler has ended is cut off: the end of
-- the first handler removes the second socket, which is open, and no command reaches the device.
stale_disconnect_drops_new :
    (delivers : ℕ → Bool) (d : String) (old new : ℕ) (c : Command) (m : Manager)
    → let m' = disconnect_agent d (connect_agent d new (connect_agent d old m)) in
      (is_agent_online d m' ≡ false) × (send_command delivers d c m' ≡ (false, m'))
unfolding is_agent_online disconnect_agent connect_agent send_command
stale_disconnect_drops_new delivers d old new c m =
    (rw (lookup-erase, eq_refl) refl, rw (lookup-erase, eq_refl) refl)
