-- ===== src/Auth/Password.antt =====
-- Changes of a password.
use batch_shutdown_assistant.Prelude.{
  ◌≤◌, String, len, ◌≡◌, ◌≢◌, refl, inl, inr, true, Option, none, some, List, update_where,
  select-update_where_comm, eq_refl, Result, Result-cases, Error, ok, err, scalar_one_or_none,
  arith, eq_iff, Bool-cases, ◌==◌,
}
use batch_shutdown_assistant.Models.{User}
use batch_shutdown_assistant.Devices.Rows.{scalar-eq-some}
use batch_shutdown_assistant.Auth.Login.{authenticate_sound}
use batch_shutdown_assistant.Auth.{
  LoginRequest, Crypto, Alphabet, CurrentUser, any_char, validate_password_strength, by_username,
  verified, authenticate,
}
use batch_shutdown_assistant.Auth.Accounts.{
  PasswordChange, set_hash, change_verified, change_password,
}

-- A password passes only if it has 8 to 128 characters, among them a letter and a digit.
pub validate_password_strength_lem :
    (a : Alphabet) (password : String)
    → validate_password_strength a password ≡ ok tt
    → (8 ≤ len password)
      × (len password ≤ 128)
      × (any_char a.is_alpha password ≡ true)
      × (any_char a.is_digit password ≡ true)
unfolding validate_password_strength
validate_password_strength_lem a password h = ground arith

module _ (c : Crypto) (a : Alphabet) (user : CurrentUser) (payload : PasswordChange)
    (users : List User) where
  change_refused :
      (r : Result (Option User)) {e : Error}
      → (change_verified c a payload users r).0 ≡ err e
      → (change_verified c a payload users r).1 ≡ users
  unfolding change_verified
  change_refused (err e) h = refl
  change_refused (ok none) h = refl
  change_refused (ok (some u)) h = ground arith

  -- A change that is refused leaves the users as they were.
  pub change_password_error_unchanged :
      {e : Error}
      → (change_password c a user payload users).0 ≡ err e
      → (change_password c a user payload users).1 ≡ users
  unfolding change_password
  change_password_error_unchanged h =
      change_refused
        (authenticate c (record { username = user.username; password = payload.old_password })
          users)
        h

  abbrev rehashed : User → List User
  rehashed u = update_where (λ v. v.id == u.id) (set_hash (c.hash payload.new_password)) users

  change_accepted :
      (r : Result (Option User))
      → (change_verified c a payload users r).0 ≡ ok tt
      → (u : User) × (r ≡ ok (some u))
        × (validate_password_strength a payload.new_password ≡ ok tt)
        × (payload.new_password ≢ payload.old_password)
        × ((change_verified c a payload users r).1 ≡ rehashed u)
  unfolding change_verified
  change_accepted (err e) h = cc
  change_accepted (ok none) h = cc
  change_accepted (ok (some u)) h =
      elim (Result-cases (validate_password_strength a payload.new_password)) [
        | inl (e, weak) ↦ absurd (cc (rw (weak, change_verified) at h))
        | inr (_, strong) ↦ elim (Bool-cases (payload.new_password == payload.old_password)) [
          | inl same ↦ absurd (ground arith)
          | inr other ↦ (
            u,
            refl,
            strong,
            ground (arith, eq_iff payload.new_password payload.old_password),
            ground arith,
          )
        ]
      ]

  new_authenticates :
      (u : User)
      → ((p : String) → c.check p (c.hash p) ≡ true)
      → scalar_one_or_none (by_username user.username users) ≡ ok (some u)
      → authenticate c
          (record { username = user.username; password = payload.new_password })
          (rehashed u)
        ≡ ok (some (set_hash (c.hash payload.new_password) u))
  unfolding authenticate verified
  new_authenticates u bcrypt found =
      rw
        (select-update_where_comm (λ v. v.id == u.id) (λ v. v.username == user.username)
          (set_hash (c.hash payload.new_password)) users (λ v. refl))
        (rw (scalar-eq-some (by_username user.username users) found)
          (rw (eq_refl u.id) (rw (bcrypt payload.new_password) refl)))

  -- A change that is accepted was made with the old password, to a password that differs and passes
  -- the check of its strength; after it the user is authenticated with the new password, where
  -- bcrypt accepts a password against its own hash.
  pub change_password_lem :
      ((p : String) → c.check p (c.hash p) ≡ true)
      → (change_password c a user payload users).0 ≡ ok tt
      → (u : User) × (scalar_one_or_none (by_username user.username users) ≡ ok (some u))
        × (c.check payload.old_password u.password_hash ≡ true)
        × (validate_password_strength a payload.new_password ≡ ok tt)
        × (payload.new_password ≢ payload.old_password)
        × (authenticate c
              (record { username = user.username; password = payload.new_password })
              (change_password c a user payload users).1
            ≡ ok (some (set_hash (c.hash payload.new_password) u)))
  unfolding change_password
  change_password_lem bcrypt h =
      let old : LoginRequest = record {
        username = user.username;
        password = payload.old_password;
      } in
      let (u, r, strong, other, changed) = change_accepted (authenticate c old users) h in
      let (found, good) = authenticate_sound c old users r in
      (u, found, good, strong, other, rw changed (new_authenticates u bcrypt found))
