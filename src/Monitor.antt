-- ===== src/Monitor.antt =====
-- server/main.py: the loop that marks silent devices offline, that which clears old audit entries and
-- uploads, and the first administrator. Every turn of a loop is one step at the time `now`; an
-- exception ends the turn.
pub mod Silence
mod Tests
use batch_shutdown_assistant.Prelude.{
  ℕ, ◌-◌, ◌*◌, ◌/◌, String, Bool, ◌&&◌, Option, none, some, List, [], ◌∷◌, ◌++◌, update_where, ltb,
  Result, ok, err, scalar_one_or_none,
}
use batch_shutdown_assistant.Models.{Device, DeviceStatus, User, AuditLog}
use batch_shutdown_assistant.Auth.{Crypto, by_username}
use batch_shutdown_assistant.Inventory.{is_online}
use batch_shutdown_assistant.Audit.{purge_old_audits}
use batch_shutdown_assistant.Uploads.{Directory, upload_keep, cleanup_uploads}

abbrev pub heartbeat_timeout_seconds : ℕ
heartbeat_timeout_seconds = 15

abbrev pub second : ℕ
second = 1000000

-- `last_heartbeat < :cutoff` compares texts: a column's text has the fraction of the second, the
-- cutoff's ends at the second. Of two that agree so far the longer is greater, so that the whole
-- seconds decide.
unfoldable pub is_silent : ℕ → Device → Bool
is_silent now d =
    ltb (d.last_heartbeat / second) ((now - heartbeat_timeout_seconds * second) / second)

-- The UPDATE of one turn.
unfoldable pub expire_devices : ℕ → List Device → List Device
unfolding is_silent
expire_devices now devices =
    update_where (λ d. is_online d && is_silent now d)
      (λ d. record d { status = DeviceStatus.offline }) devices

-- A turn of `maintenance_loop`.
unfoldable pub maintain :
    (String → Bool) → ℕ → List AuditLog → Directory → List AuditLog × Directory
unfolding purge_old_audits cleanup_uploads
maintain removes now audits directory =
    ((purge_old_audits now audits).0, cleanup_uploads removes upload_keep directory)

-- `ensure_default_admin` after the search
unfoldable pub add_admin : Crypto → String → ℕ → List User → Result (Option User) → List User
add_admin c fresh now users (err e) = users
add_admin c fresh now users (ok (some u)) = users
add_admin c fresh now users (ok none) =
    users
    ++ record {
      id = fresh;
      username = "admin";
      password_hash = c.hash "admin123";
      role = "admin";
      created_at = now;
    }
      ∷ []

unfoldable pub ensure_default_admin : Crypto → String → ℕ → List User → List User
unfolding add_admin
ensure_default_admin c fresh now users =
    add_admin c fresh now users (scalar_one_or_none (by_username "admin" users))
