-- ===== src/Auth/Login.antt =====
-- Logins under the limiter, one after another.
use batch_shutdown_assistant.Prelude.{
  ℕ, ◌+◌, ◌<◌, ◌≤◌, String, ◌≡◌, refl, ap, inl, inr, true, Option, none, some, List, [], ◌∷◌,
  length, length-append, num_eq, ltb, Result, ok, err, scalar_one_or_none, arith, Bool-cases, ◌>>=◌,
  lookup, lookup-erase, eq_refl,
}
use batch_shutdown_assistant.Models.{User, AuditLog}
use batch_shutdown_assistant.Audit.{log_audit}
use batch_shutdown_assistant.RateLimit.{key, check_allowed, record_failure, record_success}
use batch_shutdown_assistant.RateLimit.Levels.{
  IsCappedLimiter, IsCapped-nil, record_failure-IsCapped, record_success-IsCapped,
}
use batch_shutdown_assistant.Auth.{
  Crypto, LoginRequest, LoginResponse, AuthState, create_access_token, too_many, by_username,
  verified, audit_login, login_failure, login_success, login_verified, authenticate, login,
}

-- A user that is authenticated is the one with the name, and the password is the user's.
pub authenticate_sound :
    (c : Crypto) (payload : LoginRequest) (users : List User) {u : User}
    → authenticate c payload users ≡ ok (some u)
    → (scalar_one_or_none (by_username payload.username users) ≡ ok (some u))
      × (c.check payload.password u.password_hash ≡ true)
unfolding authenticate verified
authenticate_sound c payload users {u} h =
    found (scalar_one_or_none (by_username payload.username users)) h
  where
    found :
        (r : Result (Option User))
        → (r >>= λ o. ok (verified c payload.password o)) ≡ ok (some u)
        → (r ≡ ok (some u)) × (c.check payload.password u.password_hash ≡ true)
    found (err e) p = cc
    found (ok none) p = cc
    found (ok (some v)) p = elim (Bool-cases (c.check payload.password v.password_hash)) [
      | inl good ↦ let e : v ≡ u = ground arith in (ap (λ x. ok (some x)) e, rw e at good)
      | inr bad ↦ absurd (cc (rw bad at p))
    ]

module _ (c : Crypto) (fresh : String) (now : ℕ) (ip : String) (payload : LoginRequest)
    (s : AuthState) where
  abbrev answer : Result LoginResponse × AuthState
  answer = login c fresh now ip payload s

  -- While a key is locked for a second or more, a login is refused with status 429, also with the
  -- right password; the limiter and the users do not change.
  pub login_locked :
      0 < check_allowed s.limiter now ip payload.username
      → (answer.0 ≡ err (too_many (check_allowed s.limiter now ip payload.username)))
        × (answer.1.limiter ≡ s.limiter)
        × (answer.1.users ≡ s.users)
  unfolding login
  login_locked h = ground arith

  answered :
      (r : Result (Option User)) {l : LoginResponse}
      → (login_verified c fresh now ip payload.username s r).0 ≡ ok l
      → (u : User) × (r ≡ ok (some u))
        × (l ≡ record {
          access_token = create_access_token c now u.username u.role;
          username = u.username;
        })
        × ((login_verified c fresh now ip payload.username s r).1.limiter
            ≡ record_success s.limiter ip payload.username)
  unfolding login_verified login_failure login_success
  answered (err e) h = cc
  answered (ok none) h = absurd (ground arith)
  answered (ok (some u)) h = (u, refl, ground arith, refl)

  -- A login is answered with a token only if no whole second of a lock of its key is left and the
  -- password is that of the one user with the name; the token is for that user, and the limiter has no
  -- entry of the key any more.
  pub login_needs_password :
      {l : LoginResponse}
      → answer.0 ≡ ok l
      → (u : User) × (check_allowed s.limiter now ip payload.username ≡ 0)
        × (scalar_one_or_none (by_username payload.username s.users) ≡ ok (some u))
        × (c.check payload.password u.password_hash ≡ true)
        × (l ≡ record {
          access_token = create_access_token c now u.username u.role;
          username = u.username;
        })
        × (lookup (key ip payload.username) answer.1.limiter ≡ none)
  unfolding login
  login_needs_password h =
      elim (Bool-cases (ltb 0 (check_allowed s.limiter now ip payload.username))) [
        | inl locked ↦ absurd (cc (rw locked at h))
        | inr free ↦
            let (u, r, l, cleared) = answered (authenticate c payload s.users) (rw free at h) in
            let (found, good) = authenticate_sound c payload s.users r in
            (
              u,
              ground arith,
              found,
              good,
              l,
              rw free (rw cleared (unfold record_success in rw (lookup-erase, eq_refl) refl)),
            )
      ]

  length-audit_login :
      (action name : String) (detail : Option String)
      → length (audit_login fresh now action name detail ip s.audits) ≡ length s.audits + 1
  unfolding audit_login log_audit
  length-audit_login action name detail = length-append s.audits (_ ∷ [])

  length-verified :
      (o : Option User)
      → length (login_verified c fresh now ip payload.username s (ok o)).1.audits
        ≡ length s.audits + 1
  unfolding login_verified login_failure login_success
  length-verified none =
      elim (Bool-cases (num_eq (record_failure s.limiter now ip payload.username).0 0)) [
        | inl open_key ↦ rw open_key (length-audit_login "login_failed" payload.username none)
        | inr lock ↦ rw lock (length-audit_login "login_locked" payload.username (some _))
      ]
  length-verified (some u) = length-audit_login "login_success" u.username none

  -- A login appends one row to the audit log, however it ends, unless the search of the user raises.
  pub login_audits :
      {o : Option User}
      → scalar_one_or_none (by_username payload.username s.users) ≡ ok o
      → length answer.1.audits ≡ length s.audits + 1
  unfolding login authenticate
  login_audits {o} h = elim (Bool-cases (ltb 0 (check_allowed s.limiter now ip payload.username))) [
    | inl locked ↦ rw locked (length-audit_login "login_locked" payload.username (some _))
    | inr free ↦ rw free (rw h (length-verified (verified c payload.password o)))
  ]

  verified-IsCapped :
      (r : Result (Option User))
      → check_allowed s.limiter now ip payload.username ≡ 0
      → IsCappedLimiter s.limiter
      → IsCappedLimiter (login_verified c fresh now ip payload.username s r).1.limiter
  unfolding login_verified login_failure login_success
  verified-IsCapped (err e) free capped = capped
  verified-IsCapped (ok none) free capped =
      elim (Bool-cases (num_eq (record_failure s.limiter now ip payload.username).0 0)) [
        | inl open_key ↦
            rw open_key (record_failure-IsCapped s.limiter now ip payload.username free capped).0
        | inr lock ↦
            rw lock (record_failure-IsCapped s.limiter now ip payload.username free capped).0
      ]
  verified-IsCapped (ok (some u)) free capped =
      record_success-IsCapped s.limiter ip payload.username capped

  login-IsCapped : IsCappedLimiter s.limiter → IsCappedLimiter answer.1.limiter
  unfolding login
  login-IsCapped capped =
      elim (Bool-cases (ltb 0 (check_allowed s.limiter now ip payload.username))) [
        | inl locked ↦ rw locked capped
        | inr free ↦
            rw free (verified-IsCapped (authenticate c payload s.users) (ground arith) capped)
      ]

-- A request with its time, its address and the id of its audit row.
pub record Attempt : Type 0 where
  pub fresh : String
  pub now : ℕ
  pub ip : String
  pub payload : LoginRequest

unfoldable pub run_logins : Crypto → List Attempt → AuthState → AuthState
run_logins c [] s = s
run_logins c (a ∷ rest) s = run_logins c rest (login c a.fresh a.now a.ip a.payload s).1

run_logins-IsCapped :
    (c : Crypto) (attempts : List Attempt) (s : AuthState)
    → IsCappedLimiter s.limiter
    → IsCappedLimiter (run_logins c attempts s).limiter
unfolding run_logins
run_logins-IsCapped c [] s capped = capped
run_logins-IsCapped c (a ∷ rest) s capped =
    run_logins-IsCapped c rest (login c a.fresh a.now a.ip a.payload s).1
      (login-IsCapped c a.fresh a.now a.ip a.payload s capped)

-- The state of a server that has just started.
abbrev pub fresh_state : List User → List AuditLog → AuthState
fresh_state users audits = record { limiter = []; users = users; audits = audits }

-- After any logins, one after another, from a limiter without entries, at whatever times and from
-- whatever addresses, a failure that `check_allowed` lets through locks its key for 1200 seconds at
-- most.
pub locks_stay_below_limit :
    (c : Crypto) (attempts : List Attempt) (users : List User) (audits : List AuditLog) (now : ℕ)
    (ip username : String)
    → check_allowed (run_logins c attempts (fresh_state users audits)).limiter now ip username ≡ 0
    → (record_failure (run_logins c attempts (fresh_state users audits)).limiter now ip username).0
      ≤ 1200
locks_stay_below_limit c attempts users audits now ip username free =
    (record_failure-IsCapped (run_logins c attempts (fresh_state users audits)).limiter now ip
      username free (run_logins-IsCapped c attempts (fresh_state users audits) IsCapped-nil)).1
