-- ===== src/Auth/Tests.antt =====
-- Tests of server/api/auth_routes.py and server/api/auth.py, with a toy `Crypto`.
use Prim.Native.Char.{code}
use batch_shutdown_assistant.Prelude.{
  ℕ, ◌≤◌, ◌≡◌, ◌≢◌, refl, String, true, none, some, List, [], ◌∷◌, leb, ◌&&◌, num_eq, ok,
  scalar_one_or_none, eq_refl, ◌==◌, concat, lookup, insert,
}
use batch_shutdown_assistant.Models.{User}
use batch_shutdown_assistant.RateLimit.{check_allowed, record_failure, key, add_failure, current}
use batch_shutdown_assistant.Auth.{
  Crypto, Alphabet, create_access_token, validate_password_strength, LoginRequest, LoginResponse,
  AuthState, by_username, authenticate, login,
}
use batch_shutdown_assistant.Auth.Accounts.{PasswordChange, set_hash, change_password}
use batch_shutdown_assistant.Auth.Login.{
  login_needs_password, Attempt, run_logins, locks_stay_below_limit,
}
use batch_shutdown_assistant.Auth.Password.{change_password_lem}

-- One user, "ada" of role "admin"; a hash is the password itself.
abbrev crypto : Crypto
crypto = record {
  hash = λ p. p;
  check = λ p h. p == h;
  encode = λ n r t. concat n r;
  decode = λ t s. none;
}

abbrev alphabet : Alphabet
alphabet = record {
  is_alpha = λ c. leb b'a' (code c);
  is_digit = λ c. leb b'0' (code c) && leb (code c) b'9';
  is_space = λ c. num_eq (code c) b' ';
}

abbrev ada : User
ada = record {
  id = "u1";
  username = "ada";
  password_hash = "lovelace1";
  role = "admin";
  created_at = 0;
}

abbrev state : AuthState
state = record { limiter = []; users = ada ∷ []; audits = [] }

abbrev request : LoginRequest
request = record { username = "ada"; password = "lovelace1" }

abbrev response : LoginResponse
response = record { access_token = create_access_token crypto 5 "ada" "admin"; username = "ada" }

admitted : (login crypto "a1" 5 "10.0.0.1" request state).0 ≡ ok response
unfolding login check_allowed lookup
admitted = refl

login_needs_password_example :
    (u : User) × (check_allowed [] 5 "10.0.0.1" "ada" ≡ 0)
    × (scalar_one_or_none (by_username "ada" (ada ∷ [])) ≡ ok (some u))
    × (("lovelace1" == u.password_hash) ≡ true)
    × (response ≡ record {
      access_token = create_access_token crypto 5 u.username u.role;
      username = u.username;
    })
    × (lookup (key "10.0.0.1" "ada") (login crypto "a1" 5 "10.0.0.1" request state).1.limiter
        ≡ none)
login_needs_password_example = login_needs_password crypto "a1" 5 "10.0.0.1" request state admitted

abbrev guess : ℕ → Attempt
guess now = record {
  fresh = "a1";
  now = now;
  ip = "10.0.0.1";
  payload = record { username = "ada"; password = "?" };
}

abbrev attempts : List Attempt
attempts = guess 1 ∷ guess 2 ∷ []

attempts_go_on : check_allowed (run_logins crypto attempts state).limiter 3 "10.0.0.1" "ada" ≡ 0
unfolding run_logins login check_allowed record_failure lookup insert key add_failure current
attempts_go_on = refl

locks_stay_below_limit_example :
    (record_failure (run_logins crypto attempts state).limiter 3 "10.0.0.1" "ada").0 ≤ 1200
locks_stay_below_limit_example =
    locks_stay_below_limit crypto attempts (ada ∷ []) [] 3 "10.0.0.1" "ada" attempts_go_on

abbrev change : PasswordChange
change = record { old_password = "lovelace1"; new_password = "analytical2" }

changed :
    (change_password crypto alphabet
      (record { username = "ada"; role = "admin" })
      change
      (ada ∷ [])).0
    ≡ ok tt
unfolding change_password
changed = refl

change_password_lem_example :
    (u : User) × (scalar_one_or_none (by_username "ada" (ada ∷ [])) ≡ ok (some u))
    × (("lovelace1" == u.password_hash) ≡ true)
    × (validate_password_strength alphabet "analytical2" ≡ ok tt)
    × (◌≢◌ {A = String} "analytical2" "lovelace1")
    × (authenticate crypto
          (record { username = "ada"; password = "analytical2" })
          (change_password crypto alphabet
            (record { username = "ada"; role = "admin" })
            change
            (ada ∷ [])).1
        ≡ ok (some (set_hash "analytical2" u)))
change_password_lem_example =
    change_password_lem crypto alphabet (record { username = "ada"; role = "admin" }) change
      (ada ∷ []) (λ p. eq_refl p) changed
