-- ===== src/Api/Login/Password.antt =====
-- The first step of a login, internal/api/handlers.go PostLogin.
use go_vault.Prelude.{
  ℕ, ◌≡◌, refl, Bool, true, false, not, ◌&&◌, none, some, arith, Bytes, bytes_eq, inl, inr,
  Option-cases,
}
use go_vault.Errors.{Result, ok, err}
use go_vault.Primitives.{Primitives}
use go_vault.Storage.Db.{
  User, Db, statement, login_failure, mfa_required as mfa_required_event, no_metadata,
  reason_invalid_credentials,
}
use go_vault.Storage.Users.{user_by_email, get_by_email, get_user_by_email}
use go_vault.Crypto.Text.{normalize_email}
use go_vault.Crypto.Keys.{derive_server_auth_hash, default_server_auth_params, new_server_salt}
use go_vault.Api.Server.{Request, Server, client_ip}
use go_vault.Api.Login.{
  LoginRequest, post_login, login_found, is_throttled, check_password, password_accepted,
  password_refused, issue_challenge, create_mfa_token,
}
use go_vault.Api.Login.SecondFactor.{SignsNobodyIn, with_db}
use go_vault.Api.Reply.{record_event, delay_login, decode_auth_hash}
use go_vault.Api.Reply.Recording.{record_event-Recorded}

-- The password of a request is right for a user who has no second factor.
abbrev pub opens_alone : Primitives → Bytes → User → Bool
opens_alone p client_hash u =
    elim (derive_server_auth_hash p client_hash u.auth_hash_salt default_server_auth_params) [
      | err e ↦ false
      | ok candidate ↦ bytes_eq candidate u.auth_hash && not u.totp_enabled
    ]

abbrev pub enters_alone : Primitives → LoginRequest → User → Bool
enters_alone p body u = elim (decode_auth_hash p body.auth_hash) [
  | none ↦ false
  | some client_hash ↦ opens_alone p client_hash u
]

module _ (p : Primitives) (r : Request) where
  token-keeps : (user_id : ℕ) (db : Db) → (create_mfa_token p user_id db).1.sessions ≡ db.sessions
  unfolding create_mfa_token
  token-keeps user_id db = ground arith

  challenge-keeps : (u : User) (s : Server) → SignsNobodyIn s (issue_challenge p r u s).1
  unfolding issue_challenge
  challenge-keeps u s =
      let made = create_mfa_token p u.id s.db in
      ground (
        arith,
        token-keeps u.id s.db,
        record_event-Recorded p r (some u.id) mfa_required_event none no_metadata
            (with_db made.1 s),
      )

  refused-keeps :
      (email : Bytes) (u : User) (s : Server) → SignsNobodyIn s (password_refused p r email u s).1
  unfolding password_refused delay_login
  refused-keeps email u s =
      let t = record_event p r (some u.id) login_failure none reason_invalid_credentials s in
      ground (
        arith,
        record_event-Recorded p r (some u.id) login_failure none reason_invalid_credentials s,
      )

  accepted-keeps :
      (email : Bytes) (u : User) (s : Server)
      → u.totp_enabled ≡ true
      → SignsNobodyIn s (password_accepted p r email u s).1
  unfolding password_accepted
  accepted-keeps email u s enabled = grind (arith, challenge-keeps)

  check-keeps :
      (email client_hash : Bytes) (u : User) (s : Server)
      → opens_alone p client_hash u ≡ false
      → SignsNobodyIn s (check_password p r email client_hash u s).1
  unfolding check_password
  check-keeps email client_hash u s closed =
      ground (arith, refused-keeps email u s, accepted-keeps email u s)

  found-keeps :
      (email client_hash : Bytes) (found : Result User) (s : Server)
      → ((u : User) → found ≡ ok u → opens_alone p client_hash u ≡ false)
      → SignsNobodyIn s (login_found p r email client_hash found s).1
  unfolding login_found new_server_salt delay_login
  found-keeps email client_hash (ok u) s closed = check-keeps email client_hash u s (closed u refl)
  found-keeps email client_hash (err e) s closed = ground arith

  -- The lookup, and what follows it.
  lookup-keeps :
      (email client_hash : Bytes) (s : Server)
      → ((u : User) → user_by_email email s.db.users ≡ some u → opens_alone p client_hash u ≡ false)
      → let found = get_by_email email s.db in
        SignsNobodyIn s (login_found p r email client_hash found.0 (with_db found.1 s)).1
  unfolding get_by_email get_user_by_email statement
  lookup-keeps email client_hash s closed =
      let found = get_by_email email s.db in
      ground (
        arith,
        found-keeps email client_hash found.0 (with_db found.1 s)
            (λ u e. closed u (ground (arith, e))),
      )

-- Whatever a login asks for, no session is made and no cookie is written, unless the password is right
-- for the user stored under the normalized email and that user has no second factor.
pub post_login_guarded :
    (p : Primitives) (r : Request) (body : LoginRequest) (s : Server)
    → ((u : User)
        → user_by_email (normalize_email p body.email) s.db.users ≡ some u
        → enters_alone p body u ≡ false)
    → SignsNobodyIn s (post_login p r (some body) s).1
unfolding post_login
post_login_guarded p r body s closed =
    let email = normalize_email p body.email in
    elim (Option-cases (decode_auth_hash p body.auth_hash)) [
      | inl bad ↦ ground arith
      | inr (h, e) ↦ ground (
        arith,
        lookup-keeps p r email h
            (record s { auth = (is_throttled p (client_ip p r) email s.auth s.db.now).1 })
            (λ u found. ground (arith, e, closed u found)),
      )
    ]
