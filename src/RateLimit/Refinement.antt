-- ===== src/RateLimit/Refinement.antt =====
-- Each key of the limiter keeps the standing that its own calls make.
use native.Mathlib.Nat.{one-le-pow}
use batch_shutdown_assistant.Prelude.{
  ℕ, zero, suc, ◌+◌, ◌-◌, ◌^◌, ◌≤◌, ◌≡◌, ◌∙◌, refl, ap, String, Option, none, some, List, [], ◌∷◌,
  lookup, lookup-nil, lookup-insert, lookup-erase, arith, eq_iff, ◌==◌, if◌then◌else◌, Bool-cases,
  inl, inr,
}
use batch_shutdown_assistant.RateLimit.{
  Failures, Limiter, key, wait_seconds, check_allowed, current, lock_time, add_failure,
  record_failure, record_success,
}
use batch_shutdown_assistant.RateLimit.Spec.{
  clear, next_lock, fail, waits, stand, Call, failed, succeeded, run_calls, attempts_of, view,
}

lock_time-next_lock : (n : ℕ) → lock_time (n + 1) ≡ next_lock n
unfolding lock_time next_lock
lock_time-next_lock zero = omega arith
lock_time-next_lock (suc zero) = omega arith
lock_time-next_lock (suc (suc zero)) = omega arith
lock_time-next_lock (suc (suc (suc zero))) = omega arith
lock_time-next_lock (suc (suc (suc (suc n)))) =
    let e : suc (suc (suc (suc n))) + 1 - 1 ≡ suc (suc (suc (suc n))) = omega arith in
    let p : 1 ≤ 2 ^ n = one-le-pow n 2 (omega arith) in rw e (omega (arith, p))

-- Less than five failures are kept of each key.
abbrev pub IsBelow : Limiter → Type 0
IsBelow state = (k : String) → (view (lookup k state)).tries ≤ 4

wait_seconds-waits : (o : Option Failures) (now : ℕ) → wait_seconds o now ≡ waits now (view o)
unfolding wait_seconds waits view
wait_seconds-waits none now = omega arith
wait_seconds-waits (some st) now = ground arith

-- A failure on an entry is one on its standing.
add_failure-fail :
    (o : Option Failures) (now : ℕ)
    → (view o).tries ≤ 4
    → ((add_failure (current o now) now).1 ≡ (fail now (view o)).1)
      × (view (some (add_failure (current o now) now).0) ≡ (fail now (view o)).0)
      × ((fail now (view o)).0.tries ≤ 4)
unfolding add_failure current fail view
add_failure-fail none now h = ground (arith, lock_time-next_lock 0)
add_failure-fail (some st) now h =
    ground (arith, h, lock_time-next_lock 0, lock_time-next_lock st.lock_level)

-- A failure moves the standing of its key, and no other.
view-record_failure :
    (state : Limiter) (now : ℕ) (ip username k : String)
    → IsBelow state
    → let a = view (lookup k state) in
      (view (lookup k (record_failure state now ip username).1)
        ≡ (if key ip username == k then (fail now a).0 else a))
      × ((fail now a).0.tries ≤ 4)
unfolding record_failure
view-record_failure state now ip username k below =
    let step = add_failure-fail (lookup k state) now (below k) in
    rw lookup-insert (elim (Bool-cases (key ip username == k)) [
      | inl mine ↦
          let e : key ip username ≡ k = ground (arith, eq_iff (key ip username) k, mine) in
          rw (mine, e) (step.1, step.2)
      | inr other ↦ rw other (refl, step.2)
    ])

view-record_success :
    (state : Limiter) (ip username k : String)
    → view (lookup k (record_success state ip username))
      ≡ (if key ip username == k then clear else view (lookup k state))
unfolding record_success view
view-record_success state ip username k =
    rw lookup-erase (elim (Bool-cases (key ip username == k)) [
      | inl mine ↦ rw mine refl
      | inr other ↦ rw other refl
    ])

IsBelow-record_failure :
    (state : Limiter) (now : ℕ) (ip username : String)
    → IsBelow state
    → IsBelow (record_failure state now ip username).1
IsBelow-record_failure state now ip username below k =
    let (e, few) = view-record_failure state now ip username k below in
    rw e (elim (Bool-cases (key ip username == k)) [
      | inl mine ↦ rw mine few
      | inr other ↦ rw other (below k)
    ])

IsBelow-record_success :
    (state : Limiter) (ip username : String)
    → IsBelow state
    → IsBelow (record_success state ip username)
IsBelow-record_success state ip username below k =
    rw (view-record_success state ip username k) (elim (Bool-cases (key ip username == k)) [
      | inl mine ↦ rw mine (omega arith)
      | inr other ↦ rw other (below k)
    ])

-- Any calls move the standing of a key as its own calls move it.
view-run_calls :
    (calls : List Call) (state : Limiter) (k : String)
    → IsBelow state
    → (view (lookup k (run_calls calls state))
        ≡ stand (view (lookup k state)) (attempts_of k calls))
      × IsBelow (run_calls calls state)
unfolding run_calls attempts_of stand
view-run_calls [] state k below = (refl, below)
view-run_calls (failed now ip username ∷ calls) state k below =
    let next = (record_failure state now ip username).1 in
    let rest = view-run_calls calls next k (IsBelow-record_failure state now ip username below) in
    let (e, few) = view-record_failure state now ip username k below in
    (
      rest.0
          ∙ ap (λ a. stand a (attempts_of k calls)) e
          ∙ elim (Bool-cases (key ip username == k)) [
            | inl mine ↦ rw mine refl
            | inr other ↦ rw other refl
          ],
      rest.1,
    )
view-run_calls (succeeded ip username ∷ calls) state k below =
    let next = record_success state ip username in
    let rest = view-run_calls calls next k (IsBelow-record_success state ip username below) in
    (
      rest.0
          ∙ ap (λ a. stand a (attempts_of k calls)) (view-record_success state ip username k)
          ∙ elim (Bool-cases (key ip username == k)) [
            | inl mine ↦ rw mine refl
            | inr other ↦ rw other refl
          ],
      rest.1,
    )

view-nil : (k : String) → view (lookup k []) ≡ clear
unfolding view
view-nil k = rw lookup-nil refl

IsBelow-nil : IsBelow []
IsBelow-nil k = rw (view-nil k) (omega arith)

-- After any calls on a limiter that was empty, what the limiter answers for a key, the wait and the
-- lock of one more failure, is what the standing of that key says, which its own calls alone made.
pub limiter_refines :
    (calls : List Call) (now : ℕ) (ip username : String)
    → let a = stand clear (attempts_of (key ip username) calls) in
      (check_allowed (run_calls calls []) now ip username ≡ waits now a)
      × ((record_failure (run_calls calls []) now ip username).0 ≡ (fail now a).1)
unfolding check_allowed record_failure
limiter_refines calls now ip username =
    let k = key ip username in
    let state = run_calls calls [] in
    let (e, below) = view-run_calls calls [] k IsBelow-nil in
    let e' : view (lookup k state) ≡ stand clear (attempts_of k calls) =
      e ∙ ap (λ a. stand a (attempts_of k calls)) (view-nil k) in
    (
      wait_seconds-waits (lookup k state) now ∙ ap (waits now) e',
      (add_failure-fail (lookup k state) now (below k)).0 ∙ ap (λ a. (fail now a).1) e',
    )
