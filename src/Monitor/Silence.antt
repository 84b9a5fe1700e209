-- ===== src/Monitor/Silence.antt =====
-- What a turn of the heartbeat check does, and that the first administrator is added once.
use batch_shutdown_assistant.Prelude.{
  ℕ, ◌+◌, ◌*◌, String, ◌≡◌, refl, ap, ◌∙◌, Bool, true, false, not, ◌||◌, Option, none, some, List,
  [], ◌∷◌, ◌++◌, select, all_rows, leb, Result, ok, err, scalar_one_or_none, ◌==◌, arith,
}
use batch_shutdown_assistant.Models.{Device, User}
use batch_shutdown_assistant.Devices.Rows.{select-append}
use batch_shutdown_assistant.Auth.{Crypto, by_username}
use batch_shutdown_assistant.Inventory.{is_online}
use batch_shutdown_assistant.Monitor.{
  second, is_silent, expire_devices, add_admin, ensure_default_admin,
}

-- Whether the last heartbeat is at most so many seconds old.
abbrev pub is_within : ℕ → ℕ → Device → Bool
is_within now seconds d = leb now (d.last_heartbeat + seconds * second)

silent_if_old : (now : ℕ) (d : Device) → is_within now 16 d ≡ false → is_silent now d ≡ true
unfolding is_silent
silent_if_old now d h = ground arith

loud_if_new : (now : ℕ) (d : Device) → is_within now 15 d ≡ true → is_silent now d ≡ false
unfolding is_silent
loud_if_new now d h = ground arith

-- After a turn of the check each device that is online has sent a heartbeat in the last 16 seconds,
-- and the devices with one in the last 15 seconds are as they were.
pub expire_devices_lem :
    (now : ℕ) (ds : List Device)
    → (all_rows (λ d. not (is_online d) || is_within now 16 d) (expire_devices now ds) ≡ true)
      × (select (is_within now 15) (expire_devices now ds) ≡ select (is_within now 15) ds)
unfolding expire_devices
expire_devices_lem now [] = (refl, refl)
expire_devices_lem now (d ∷ ds) =
    let (rest, kept) = expire_devices_lem now ds in
    ground (arith, rest, kept, silent_if_old now d, loud_if_new now d)

scalar-eq-none {ℓ} : {A : Type ℓ} (xs : List A) → scalar_one_or_none xs ≡ ok none → xs ≡ []
scalar-eq-none [] h = refl
scalar-eq-none (x ∷ []) h = absurd cc
scalar-eq-none (x ∷ y ∷ xs) h = absurd cc

add_admin-again :
    (c : Crypto) (fresh fresh' : String) (now later : ℕ) (users : List User)
    (found : Result (Option User))
    → scalar_one_or_none (by_username "admin" users) ≡ found
    → ensure_default_admin c fresh' later (add_admin c fresh now users found)
      ≡ add_admin c fresh now users found
unfolding ensure_default_admin add_admin
add_admin-again c fresh fresh' now later users (err e) h = rw h refl
add_admin-again c fresh fresh' now later users (ok (some u)) h = rw h refl
add_admin-again c fresh fresh' now later users (ok none) h =
    let admin : User = record {
      id = fresh;
      username = "admin";
      password_hash = c.hash "admin123";
      role = "admin";
      created_at = now;
    } in
    let one : by_username "admin" (users ++ admin ∷ []) ≡ admin ∷ [] =
      select-append (λ (u : User). u.username == "admin") users (admin ∷ [])
      ∙ ap (λ us. us ++ admin ∷ []) (scalar-eq-none (by_username "admin" users) h) in
    rw one refl

-- Starting the server again, at any time, adds no second administrator.
pub default_admin_once :
    (c : Crypto) (fresh fresh' : String) (now later : ℕ) (users : List User)
    → ensure_default_admin c fresh' later (ensure_default_admin c fresh now users)
      ≡ ensure_default_admin c fresh now users
unfolding ensure_default_admin
default_admin_once c fresh fresh' now later users =
    add_admin-again c fresh fresh' now later users (scalar_one_or_none (by_username "admin" users))
      refl
