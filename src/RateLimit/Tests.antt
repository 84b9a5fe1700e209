-- ===== src/RateLimit/Tests.antt =====
-- Tests of server/api/ratelimit.py.
use batch_shutdown_assistant.Prelude.{
  List, ◌*◌, ◌≡◌, refl, ◌≢◌, [], lookup, arith, eq_iff, insert, ◌∷◌,
}
use batch_shutdown_assistant.RateLimit.{
  second, Limiter, key, check_allowed, current, lock_time, add_failure, record_failure,
}
use batch_shutdown_assistant.RateLimit.Spec.{
  clear, failed, succeeded, Call, stand, fail, waits, attempts_of, run_calls,
}
use batch_shutdown_assistant.RateLimit.Refinement.{limiter_refines}

-- Four failures, the last at the fourth second.
abbrev four_failures : Limiter
four_failures =
    (
      "10.0.0.1|admin",
      record {
        count = 4;
        first_at = 1 * second;
        last_at = 4 * second;
        locked_until = 0;
        lock_level = 0;
      },
    )
    ∷ []

-- With less than a second of the lock left, `check_allowed` answers 0.
last_second_is_open :
    (check_allowed
        (record_failure four_failures 5000000 "10.0.0.1" "admin").1
        304500000
        "10.0.0.1"
        "admin"
      ≡ 0)
    × (check_allowed
          (record_failure four_failures 5000000 "10.0.0.1" "admin").1
          303500000
          "10.0.0.1"
          "admin"
        ≡ 1)
unfolding check_allowed record_failure add_failure current lock_time key lookup insert
last_second_is_open = (refl, refl)

keys_differ : key "10.0.0.1" "admin" ≢ key "10.0.0.2" "admin"
unfolding key
keys_differ = ground (arith, eq_iff "10.0.0.1|admin" "10.0.0.2|admin")

-- A success of another user between four failures.
abbrev calls : List Call
calls =
    failed 1000000 "10.0.0.1" "admin"
    ∷ failed 2000000 "10.0.0.1" "admin"
    ∷ succeeded "10.0.0.1" "guest"
    ∷ failed 3000000 "10.0.0.1" "admin"
    ∷ failed 4000000 "10.0.0.1" "admin"
    ∷ []

fifth_locks : (fail 5000000 (stand clear (attempts_of "10.0.0.1|admin" calls))).1 ≡ 300
unfolding fail stand attempts_of
fifth_locks = refl

limiter_refines_example :
    let a = stand clear (attempts_of (key "10.0.0.1" "admin") calls) in
    (check_allowed (run_calls calls []) 5000000 "10.0.0.1" "admin" ≡ waits 5000000 a)
    × ((record_failure (run_calls calls []) 5000000 "10.0.0.1" "admin").0 ≡ (fail 5000000 a).1)
limiter_refines_example = limiter_refines calls 5000000 "10.0.0.1" "admin"
