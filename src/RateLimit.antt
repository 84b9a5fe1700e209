-- ===== src/RateLimit.antt =====
-- server/api/ratelimit.py: the login limiter, a dict from "ip|username" to the failure state.
-- `time.time()` is a float of seconds; here a time is a number of microseconds, so that
-- `int(t)` on a difference of seconds is a division by `second`.
pub mod Lockout
pub mod Levels
pub mod Spec
pub mod Refinement
mod Tests
use batch_shutdown_assistant.Prelude.{
  ℕ, ◌+◌, ◌-◌, ◌*◌, ◌/◌, ◌^◌, min, String, concat, Option, none, some, ltb, leb, if◌then◌else◌,
  Dict, lookup, insert, erase,
}

abbrev pub second : ℕ
second = 1000000

abbrev pub max_failures : ℕ
max_failures = 5

abbrev pub base_lock_seconds : ℕ
base_lock_seconds = 300

abbrev pub max_lock_seconds : ℕ
max_lock_seconds = 3600

abbrev pub failure_window_seconds : ℕ
failure_window_seconds = 900

pub record Failures : Type 0 where
  pub count : ℕ
  pub first_at : ℕ
  pub last_at : ℕ
  pub locked_until : ℕ
  pub lock_level : ℕ

abbrev pub Limiter : Type 0
Limiter = Dict Failures

-- `_key`; `username or ''` is `username` where that is a text
unfoldable pub key : String → String → String
key ip username = concat ip (concat "|" username)

-- What `check_allowed` returns for the entry of its key.
unfoldable pub wait_seconds : Option Failures → ℕ → ℕ
wait_seconds none now = 0
wait_seconds (some st) now = if ltb now st.locked_until then (st.locked_until - now) / second else 0

unfoldable pub check_allowed : Limiter → ℕ → String → String → ℕ
unfolding wait_seconds
check_allowed state now ip username = wait_seconds (lookup (key ip username) state) now

-- The entry that the failure is added to: a new one where there is none or the last failure is out
-- of the window. A clock that went back gives a negative difference, which is not greater.
unfoldable pub current : Option Failures → ℕ → Failures
current none now = record {
  count = 0;
  first_at = now;
  last_at = now;
  locked_until = 0;
  lock_level = 0;
}
current (some st) now =
    if ltb (st.last_at + failure_window_seconds * second) now
    then record { count = 0; first_at = now; last_at = now; locked_until = 0; lock_level = 0 }
    else st

-- The lock time of a level, `BASE * 2 ** (level - 1)` up to the limit.
unfoldable pub lock_time : ℕ → ℕ
lock_time level = min (base_lock_seconds * 2 ^ (level - 1)) max_lock_seconds

-- The body of `record_failure` on one entry: the new entry and the result.
unfoldable pub add_failure : Failures → ℕ → Failures × ℕ
add_failure st now =
    if leb max_failures (st.count + 1)
    then (
      record st {
        count = 0;
        last_at = now;
        lock_level = st.lock_level + 1;
        locked_until = now + lock_time (st.lock_level + 1) * second;
      },
      lock_time (st.lock_level + 1),
    )
    else (record st { count = st.count + 1; last_at = now }, 0)

unfoldable pub record_failure : Limiter → ℕ → String → String → ℕ × Limiter
record_failure state now ip username =
    let (st, seconds) = add_failure (current (lookup (key ip username) state) now) now in
    (seconds, insert (key ip username) st state)

unfoldable pub record_success : Limiter → String → String → Limiter
record_success state ip username = erase (key ip username) state
