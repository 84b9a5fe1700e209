-- ===== src/Auth/Token.antt =====
-- Tokens: what `login` issues is what `get_current_user` accepts, until the token expires.
use batch_shutdown_assistant.Prelude.{
  ℕ, ◌+◌, ◌<◌, ◌≤◌, String, ◌≡◌, ◌≢◌, refl, none, some, ok, err, http, arith, eq_iff, ltb,
  if◌then◌else◌, Bool-cases, inl, inr,
}
use batch_shutdown_assistant.Auth.{Crypto, create_access_token, token_lifetime, get_current_user}

-- Where `jwt.decode` gives back the claims of the user's token before its expiry and refuses the token
-- from then on, the token is accepted, for that user and role, for 24 hours after it was made, and
-- answered with 401 from then on.
get_current_user-create_access_token :
    (c : Crypto) (now later : ℕ) (name role : String)
    → ((t : ℕ)
        → t < now + token_lifetime
        → c.decode t (c.encode name role (now + token_lifetime))
          ≡ some (record { sub = some name; role = some role }))
    → ((t : ℕ)
        → now + token_lifetime ≤ t
        → c.decode t (c.encode name role (now + token_lifetime)) ≡ none)
    → name ≢ ""
    → get_current_user c later (create_access_token c now name role) ≡ (
        if ltb later (now + token_lifetime)
        then ok (record { username = name; role = role })
        else err (http 401 "Invalid token"))
unfolding get_current_user create_access_token
get_current_user-create_access_token c now later name role valid expired named =
    elim (Bool-cases (ltb later (now + token_lifetime))) [
      | inl live ↦ rw live (rw (valid later (ground arith)) (ground (arith, eq_iff name "")))
      | inr over ↦ rw over (rw (expired later (ground arith)) refl)
    ]
