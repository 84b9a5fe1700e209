-- ===== src/Auth/Accounts.antt =====
-- server/api/auth_routes.py: the change of a password.
use batch_shutdown_assistant.Prelude.{
  String, Option, none, some, List, update_where, Result, ok, err, http, ◌==◌, if◌then◌else◌,
}
use batch_shutdown_assistant.Models.{User}
use batch_shutdown_assistant.Auth.{
  Alphabet, Crypto, CurrentUser, authenticate, validate_password_strength,
}

pub record PasswordChange : Type 0 where
  pub old_password : String
  pub new_password : String

-- The flush of a user whose hash was changed.
abbrev pub set_hash : String → User → User
set_hash h u = record u { password_hash = h }

-- `change_password` on what the search and `verify_password` gave
unfoldable pub change_verified :
    Crypto
    → Alphabet
    → PasswordChange
    → List User
    → Result (Option User)
    → Result (Unit {0}) × List User
change_verified c a payload users (err e) = (err e, users)
change_verified c a payload users (ok none) = (err (http 400 "原密码错误"), users)
change_verified c a payload users (ok (some u)) =
    elim (validate_password_strength a payload.new_password) [
      | err e ↦ (err e, users)
      | ok _ ↦
          if payload.new_password == payload.old_password
          then (err (http 400 "新密码不能与原密码相同"), users)
          else (
            ok tt,
            update_where (λ v. v.id == u.id) (set_hash (c.hash payload.new_password)) users,
          )
    ]

-- `POST /api/auth/change-password`
unfoldable pub change_password :
    Crypto → Alphabet → CurrentUser → PasswordChange → List User → Result (Unit {0}) × List User
unfolding change_verified authenticate validate_password_strength
change_password c a user payload users =
    change_verified c a payload users
      (authenticate c (record { username = user.username; password = payload.old_password }) users)
