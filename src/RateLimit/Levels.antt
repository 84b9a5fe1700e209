-- ===== src/RateLimit/Levels.antt =====
-- The lock levels that a client can reach which is let through by `check_allowed` before each
-- failure, as `login` does.
use batch_shutdown_assistant.Prelude.{
  ℕ, ◌+◌, ◌*◌, ◌≤◌, ◌≡◌, zero, suc, Bool-cases, inl, inr, lookup-nil, [], String, Option, none,
  some, lookup, lookup-insert, lookup-erase, arith, ◌==◌,
}
use batch_shutdown_assistant.RateLimit.{
  second, Failures, Limiter, key, wait_seconds, check_allowed, current, lock_time, add_failure,
  record_failure, record_success,
}

-- The level is at most 3, and a lock of level 3 runs for 1200 seconds from the last failure.
abbrev pub IsCapped : Option Failures → Type 0
IsCapped none = Unit
IsCapped (some st) =
    (st.lock_level ≤ 3) × (st.lock_level ≡ 3 → st.locked_until ≡ st.last_at + 1200 * second)

abbrev pub IsCappedLimiter : Limiter → Type 0
IsCappedLimiter state = (k : String) → IsCapped (lookup k state)

-- A failure that is let through finds a level below 3, since the window is over before a lock of
-- level 3 is.
current_level :
    (o : Option Failures) (now : ℕ)
    → wait_seconds o now ≡ 0
    → IsCapped o
    → (current o now).lock_level ≤ 2
unfolding wait_seconds current
current_level none now w c = omega arith
current_level (some st) now w c = ground arith

lock_time_small : (n : ℕ) → n ≤ 2 → (lock_time (n + 1) ≤ 1200) × (n ≡ 2 → lock_time (n + 1) ≡ 1200)
unfolding lock_time
lock_time_small zero h = omega arith
lock_time_small (suc zero) h = omega arith
lock_time_small (suc (suc zero)) h = omega arith
lock_time_small (suc (suc (suc n))) h = omega arith

add_failure-IsCapped :
    (st : Failures) (now : ℕ)
    → st.lock_level ≤ 2
    → IsCapped (some (add_failure st now).0) × ((add_failure st now).1 ≤ 1200)
unfolding add_failure
add_failure-IsCapped st now h = ground (arith, lock_time_small st.lock_level h)

-- A failure that `check_allowed` let through keeps every level at 3 at most, and locks for 1200
-- seconds at most.
pub record_failure-IsCapped :
    (state : Limiter) (now : ℕ) (ip username : String)
    → check_allowed state now ip username ≡ 0
    → IsCappedLimiter state
    → IsCappedLimiter (record_failure state now ip username).1
      × ((record_failure state now ip username).0 ≤ 1200)
unfolding record_failure check_allowed
record_failure-IsCapped state now ip username w c = (
  λ k. rw lookup-insert (elim (Bool-cases (key ip username == k)) [
    | inl same ↦ rw same next.0
    | inr other ↦ rw other (c k)
  ]),
  next.1,
)
  where
    found : Option Failures
    found = lookup (key ip username) state

    next :
        IsCapped (some (add_failure (current found now) now).0)
        × ((add_failure (current found now) now).1 ≤ 1200)
    next =
        add_failure-IsCapped (current found now) now
          (current_level found now w (c (key ip username)))

pub record_success-IsCapped :
    (state : Limiter) (ip username : String)
    → IsCappedLimiter state
    → IsCappedLimiter (record_success state ip username)
unfolding record_success
record_success-IsCapped state ip username c = λ k.
    rw lookup-erase (elim (Bool-cases (key ip username == k)) [
      | inl same ↦ rw same tt
      | inr other ↦ rw other (c k)
    ])

pub IsCapped-nil : IsCappedLimiter []
IsCapped-nil = λ k. rw lookup-nil tt
