-- ===== src/RateLimit/Lockout.antt =====
-- When `record_failure` locks a key, and what a lock does to `check_allowed`.
use native.Mathlib.Nat.{one-le-pow}
use batch_shutdown_assistant.Prelude.{
  ℕ, ◌+◌, ◌-◌, ◌*◌, ◌/◌, ◌≤◌, ◌<◌, ◌≡◌, ◌≢◌, ◌⊎◌, String, lookup, lookup-insert, lookup-erase,
  arith, eq_iff, eq_refl, some, none,
}
use batch_shutdown_assistant.RateLimit.{
  second, base_lock_seconds, max_lock_seconds, failure_window_seconds, Limiter, key, check_allowed,
  current, lock_time, add_failure, record_failure, record_success,
}

pub lock_time_bounds :
    (n : ℕ) → (base_lock_seconds ≤ lock_time n) × (lock_time n ≤ max_lock_seconds)
unfolding lock_time
lock_time_bounds n = omega (arith, one-le-pow (n - 1) 2 (omega arith))

-- `record_failure` returns 0, or a lock of at least 300 and at most 3600 seconds.
pub record_failure_bounds :
    (state : Limiter) (now : ℕ) (ip username : String)
    → let seconds = (record_failure state now ip username).0 in
      (seconds ≡ 0) ⊎ ((base_lock_seconds ≤ seconds) × (seconds ≤ max_lock_seconds))
unfolding record_failure add_failure
record_failure_bounds state now ip username =
    let st = current (lookup (key ip username) state) now in
    ground (arith, lock_time_bounds (st.lock_level + 1))

-- After a failure that locks a key for `s` seconds, what `check_allowed` answers at any later time is
-- the whole seconds of the lock that are left.
check_allowed-record_failure :
    (state : Limiter) (now later : ℕ) (ip username : String)
    → 0 < (record_failure state now ip username).0
    → check_allowed (record_failure state now ip username).1 later ip username
      ≡ (now + (record_failure state now ip username).0 * second - later) / second
unfolding record_failure add_failure check_allowed
check_allowed-record_failure state now later ip username h =
    rw (lookup-insert, eq_refl) (ground arith)

-- A failure recorded for one key changes no waiting time of a key that differs.
pub record_failure_others :
    (state : Limiter) (now later : ℕ) (ip username ip' username' : String)
    → key ip username ≢ key ip' username'
    → check_allowed (record_failure state now ip username).1 later ip' username'
      ≡ check_allowed state later ip' username'
unfolding record_failure check_allowed
record_failure_others state now later ip username ip' username' ne =
    rw lookup-insert (ground (arith, eq_iff (key ip username) (key ip' username')))

-- A success clears the key: no wait is left, and the next failure counts from one.
pub record_success_clears :
    (state : Limiter) (now : ℕ) (ip username : String)
    → (check_allowed (record_success state ip username) now ip username ≡ 0)
      × ((record_failure (record_success state ip username) now ip username).0 ≡ 0)
unfolding record_failure record_success check_allowed add_failure current
record_success_clears state now ip username =
    (rw (lookup-erase, eq_refl), rw (lookup-erase, eq_refl))

-- The entry of the key after a failure.
lookup-record_failure :
    (state : Limiter) (now : ℕ) (ip username : String)
    → lookup (key ip username) (record_failure state now ip username).1
      ≡ some (add_failure (current (lookup (key ip username) state) now) now).0
unfolding record_failure
lookup-record_failure state now ip username = rw (lookup-insert, eq_refl)

-- Each failure no later than the window after the one before.
pub record WithinWindow (t₁ t₂ t₃ t₄ t₅ : ℕ) : Type 0 where
  pub second_failure : t₂ ≤ t₁ + failure_window_seconds * second
  pub third_failure : t₃ ≤ t₂ + failure_window_seconds * second
  pub fourth_failure : t₄ ≤ t₃ + failure_window_seconds * second
  pub fifth_failure : t₅ ≤ t₄ + failure_window_seconds * second

-- For a key with no failures, five failures within the window of one another return 0 four times,
-- and the fifth locks the key for 300 seconds.
pub fifth_failure_locks :
    (state : Limiter) (t₁ t₂ t₃ t₄ t₅ : ℕ) (ip username : String)
    → lookup (key ip username) state ≡ none
    → WithinWindow t₁ t₂ t₃ t₄ t₅
    → let (r₁, s₁) = record_failure state t₁ ip username in
      let (r₂, s₂) = record_failure s₁ t₂ ip username in
      let (r₃, s₃) = record_failure s₂ t₃ ip username in
      let (r₄, s₄) = record_failure s₃ t₄ ip username in
      (r₁ ≡ 0)
      × (r₂ ≡ 0)
      × (r₃ ≡ 0)
      × (r₄ ≡ 0)
      × ((record_failure s₄ t₅ ip username).0 ≡ base_lock_seconds)
unfolding record_failure add_failure current lock_time
fifth_failure_locks state t₁ t₂ t₃ t₄ t₅ ip username new w =
    simp (lookup-insert, eq_refl, new) (ground arith)
