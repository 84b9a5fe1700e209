-- ===== src/RateLimit/Spec.antt =====
-- What the login limiter promises: each key has a standing of its own, which its own failures and
-- successes alone move. The dict, the other keys, and the time of a key's first failure, which the
-- code stores and never reads, do not show.
use batch_shutdown_assistant.Prelude.{
  ℕ, zero, suc, ◌+◌, ◌-◌, ◌*◌, ◌/◌, String, Option, none, some, List, [], ◌∷◌, ltb, num_eq, ◌==◌,
  if◌then◌else◌,
}
use batch_shutdown_assistant.RateLimit.{
  second, Failures, Limiter, key, record_failure, record_success,
}

-- The failures since the last lock, the locks in a row, the time of the last failure, and the end of
-- the last lock.
pub record Standing : Type 0 where
  pub tries : ℕ
  pub locks : ℕ
  pub last : ℕ
  pub until : ℕ

abbrev pub clear : Standing
clear = record { tries = 0; locks = 0; last = 0; until = 0 }

-- The seconds of the next lock, after so many in a row.
unfoldable pub next_lock : ℕ → ℕ
next_lock zero = 300
next_lock (suc zero) = 600
next_lock (suc (suc zero)) = 1200
next_lock (suc (suc (suc zero))) = 2400
next_lock (suc (suc (suc (suc n)))) = 3600

-- A failure within 15 minutes of the last: the fifth locks the key.
unfoldable pub add_try : ℕ → Standing → Standing × ℕ
unfolding next_lock
add_try now a =
    if num_eq a.tries 4
    then (
      record {
        tries = 0;
        locks = a.locks + 1;
        last = now;
        until = now + next_lock a.locks * second;
      },
      next_lock a.locks,
    )
    else (record a { tries = a.tries + 1; last = now }, 0)

-- A failure after more than 15 minutes without one is the first.
unfoldable pub fail : ℕ → Standing → Standing × ℕ
unfolding add_try
fail now a = add_try now (if ltb (a.last + 900 * second) now then clear else a)

-- The whole seconds until the end of the lock.
unfoldable pub waits : ℕ → Standing → ℕ
waits now a = (a.until - now) / second

-- What happens to one key: a failure at a time, or a success.
pub data Attempt : Type 0 where
  failure : ℕ → Attempt
  success : Attempt

unfoldable pub stand : Standing → List Attempt → Standing
unfolding fail
stand a [] = a
stand a (failure now ∷ attempts) = stand (fail now a).0 attempts
stand a (success ∷ attempts) = stand clear attempts

-- The calls of the limiter, one after another.
pub data Call : Type 0 where
  failed : ℕ → String → String → Call
  succeeded : String → String → Call

unfoldable pub run_calls : List Call → Limiter → Limiter
unfolding record_failure record_success
run_calls [] state = state
run_calls (failed now ip username ∷ calls) state =
    run_calls calls (record_failure state now ip username).1
run_calls (succeeded ip username ∷ calls) state = run_calls calls (record_success state ip username)

-- The calls for one key.
unfoldable pub attempts_of : String → List Call → List Attempt
unfolding key
attempts_of k [] = []
attempts_of k (failed now ip username ∷ calls) =
    let rest = attempts_of k calls in if key ip username == k then failure now ∷ rest else rest
attempts_of k (succeeded ip username ∷ calls) =
    let rest = attempts_of k calls in if key ip username == k then success ∷ rest else rest

-- The standing that an entry of the dict stands for.
unfoldable pub view : Option Failures → Standing
view none = clear
view (some st) = record {
  tries = st.count;
  locks = st.lock_level;
  last = st.last_at;
  until = st.locked_until;
}
