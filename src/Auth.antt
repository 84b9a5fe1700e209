-- ===== src/Auth.antt =====
-- server/api/auth.py and server/api/auth_routes.py: tokens, login with the limiter, passwords.
-- bcrypt and the JWT library are the fields of `Crypto`; the Unicode tables of `str.isalpha`,
-- `str.isdigit` and `str.strip` those of `Alphabet`. A login runs as one step, so that no other login
-- runs between its `check_allowed` and its `record_failure`.
pub mod Accounts
pub mod Login
pub mod Password
pub mod Token
mod Tests
use Prim.Native.Char.{Char, code}
use Prim.Native.String as Text
use batch_shutdown_assistant.Prelude.{
  ℕ, ◌+◌, ◌*◌, String, concat, len, decimal, Bool, true, false, not, ◌||◌, ◌&&◌, Option, none, some,
  List, [], ◌∷◌, ◌++◌, select, update_where, num_eq, ltb, Error, Result, ok, err, http,
  scalar_one_or_none, ◌>>=◌, ◌==◌, if◌then◌else◌,
}
use batch_shutdown_assistant.Models.{User, AuditLog}
use batch_shutdown_assistant.Audit
use batch_shutdown_assistant.Audit.{log_audit}
use batch_shutdown_assistant.RateLimit.{
  second, Limiter, check_allowed, record_failure, record_success,
}

-- The claims of a token; a claim may be missing.
pub record Claims : Type 0 where
  pub sub : Option String
  pub role : Option String

-- `hash` is `bcrypt.hashpw` with a fresh salt, `check` is `bcrypt.checkpw`; `encode` is `jwt.encode` of
-- a name, a role and the time of expiry under the server's key, `decode` is `jwt.decode` at a time,
-- with `none` for a `JWTError`.
pub record Crypto : Type 0 where
  pub hash : String → String
  pub check : String → String → Bool
  pub encode : String → String → ℕ → String
  pub decode : ℕ → String → Option Claims

pub record Alphabet : Type 0 where
  pub is_alpha : Char → Bool
  pub is_digit : Char → Bool
  pub is_space : Char → Bool

pub record CurrentUser : Type 0 where
  pub username : String
  pub role : String

-- The default of `create_access_token`, 24 hours.
abbrev pub token_lifetime : ℕ
token_lifetime = 24 * 3600 * second

unfoldable pub create_access_token : Crypto → ℕ → String → String → String
create_access_token c now sub role = c.encode sub role (now + token_lifetime)

-- `payload.get("role", "admin")`
abbrev pub role_or_admin : Option String → String
role_or_admin none = "admin"
role_or_admin (some r) = r

-- `get_current_user` on the claims of the token
unfoldable pub user_of_claims : Option Claims → Result CurrentUser
user_of_claims none = err (http 401 "Invalid token")
user_of_claims (some claims) = elim claims.sub [
  | none ↦ err (http 401 "Invalid token")
  | some name ↦
      if name == ""
      then err (http 401 "Invalid token")
      else ok (record { username = name; role = role_or_admin claims.role })
]

unfoldable pub get_current_user : Crypto → ℕ → String → Result CurrentUser
unfolding user_of_claims
get_current_user c now token = user_of_claims (c.decode now token)

abbrev pub any_char : (Char → Bool) → String → Bool
any_char p Text.[] = false
any_char p (Text.◌∷◌ c s) = p c || any_char p s

unfoldable pub validate_password_strength : Alphabet → String → Result (Unit {0})
validate_password_strength a password =
    if ltb (len password) 8
    then err (http 400 "密码长度至少 8 位")
    else if ltb 128 (len password)
    then err (http 400 "密码长度不能超过 128 位")
    else if not (any_char a.is_alpha password && any_char a.is_digit password)
    then err (http 400 "密码需同时包含字母和数字")
    else ok tt

-- `s.split(",")[0]`
unfoldable pub before_comma : String → String
before_comma Text.[] = Text.[]
before_comma (Text.◌∷◌ c s) =
    let rest = before_comma s in if num_eq (code c) b',' then Text.[] else Text.◌∷◌ c rest

unfoldable pub strip_left : (Char → Bool) → String → String
strip_left is_space Text.[] = Text.[]
strip_left is_space (Text.◌∷◌ c s) =
    let rest = strip_left is_space s in if is_space c then rest else Text.◌∷◌ c s

unfoldable pub strip_right : (Char → Bool) → String → String
strip_right is_space Text.[] = Text.[]
strip_right is_space (Text.◌∷◌ c s) =
    let rest = strip_right is_space s in
    if rest == "" && is_space c then Text.[] else Text.◌∷◌ c rest

-- The header and the address of the peer.
pub record Peer : Type 0 where
  pub x_forwarded_for : Option String
  pub host : Option String

abbrev pub host_or_unknown : Option String → String
host_or_unknown none = "unknown"
host_or_unknown (some h) = h

-- `_client_ip`
unfoldable pub client_ip : Alphabet → Peer → String
unfolding before_comma strip_left strip_right
client_ip a request = elim request.x_forwarded_for [
  | none ↦ host_or_unknown request.host
  | some fwd ↦
      if fwd == ""
      then host_or_unknown request.host
      else strip_right a.is_space (strip_left a.is_space (before_comma fwd))
]

pub record LoginRequest : Type 0 where
  pub username : String
  pub password : String

pub record LoginResponse : Type 0 where
  pub access_token : String
  pub username : String

-- What a login reads and writes.
pub record AuthState : Type 0 where
  pub limiter : Limiter
  pub users : List User
  pub audits : List AuditLog

unfoldable pub audit_login :
    String → ℕ → String → String → Option String → String → List AuditLog → List AuditLog
unfolding log_audit
audit_login fresh now action username detail ip audits =
    log_audit fresh now action
      (record { username = some username; target = none; detail = detail; ip_address = some ip })
      audits

abbrev pub too_many : ℕ → Error
too_many seconds = http 429 (concat "登录失败次数过多，请 " (concat (decimal seconds) " 秒后重试"))

-- `select(User).where(User.username == username)`
abbrev pub by_username : String → List User → List User
by_username name users = select (λ u. u.username == name) users

-- `not user or not verify_password(…)`, negated: the user if the password is right
unfoldable pub verified : Crypto → String → Option User → Option User
verified c password none = none
verified c password (some u) = if c.check password u.password_hash then some u else none

-- The end of a login whose name or password is wrong.
unfoldable pub login_failure :
    String → ℕ → String → String → AuthState → Result LoginResponse × AuthState
unfolding audit_login
login_failure fresh now ip username s =
    let (seconds, limiter) = record_failure s.limiter now ip username in
    if num_eq seconds 0
    then (
      err (http 401 "用户名或密码错误"),
      record s {
        limiter = limiter;
        audits = audit_login fresh now "login_failed" username none ip s.audits;
      },
    )
    else (
      err (too_many seconds),
      record s {
        limiter = limiter;
        audits =
            audit_login fresh now "login_locked" username
              (some (concat "locked " (concat (decimal seconds) "s after repeated failures"))) ip
              s.audits;
      },
    )

-- The end of a login that succeeds.
unfoldable pub login_success :
    Crypto → String → ℕ → String → String → User → AuthState → Result LoginResponse × AuthState
unfolding audit_login create_access_token
login_success c fresh now ip username u s = (
  ok (record { access_token = create_access_token c now u.username u.role; username = u.username }),
  record s {
    limiter = record_success s.limiter ip username;
    audits = audit_login fresh now "login_success" u.username none ip s.audits;
  },
)

-- `login` on what the search and `verify_password` gave
unfoldable pub login_verified :
    Crypto
    → String
    → ℕ
    → String
    → String
    → AuthState
    → Result (Option User)
    → Result LoginResponse × AuthState
unfolding login_failure login_success
login_verified c fresh now ip username s (err e) = (err e, s)
login_verified c fresh now ip username s (ok none) = login_failure fresh now ip username s
login_verified c fresh now ip username s (ok (some u)) = login_success c fresh now ip username u s

-- The search of the user and the check of the password.
unfoldable pub authenticate : Crypto → LoginRequest → List User → Result (Option User)
unfolding verified
authenticate c payload users = do
  found ← scalar_one_or_none (by_username payload.username users)
  ok (verified c payload.password found)

-- `POST /api/auth/login` from a client address
unfoldable pub login :
    Crypto → String → ℕ → String → LoginRequest → AuthState → Result LoginResponse × AuthState
unfolding login_verified audit_login authenticate
login c fresh now ip payload s =
    let wait = check_allowed s.limiter now ip payload.username in
    if ltb 0 wait
    then (
      err (too_many wait),
      record s {
        audits =
            audit_login fresh now "login_locked" payload.username
              (some (concat "locked " (concat (decimal wait) "s"))) ip s.audits;
      },
    )
    else login_verified c fresh now ip payload.username s (authenticate c payload s.users)
