-- ===== src/Api/Login.antt =====
-- internal/api/handlers.go and handlers_phase5.go: PostLogin, PostLoginMfa, PostAuthRefresh and
-- PostLogout.
pub mod Password
pub mod SecondFactor
pub mod Expiry
pub mod Chosen
use go_vault.Prelude.{
  ℕ, ◌+◌, ◌*◌, Bool, true, false, not, [], ◌∷◌, Option, none, some, if◌then◌else◌, Bytes, bytes_eq,
}
use go_vault.Errors.{Error, not_found, session_invalid, Result, ok, err}
use go_vault.Primitives.{Primitives, KdfParams}
use go_vault.Storage.Db.{
  User, Query, login_failure, login_success, mfa_required as mfa_required_event, mfa_success,
  mfa_failure, logout, no_metadata, reason_invalid_credentials,
}
use go_vault.Storage.Db
use go_vault.Storage.Users
use go_vault.Storage.Mfa
use go_vault.Auth.Manager.{Manager, is_login_locked, check_login_limit, reset_login_limit}
use go_vault.Auth.Session.{generate_token, create_session_pair, refresh_session, revoke_session}
use go_vault.Auth.Lockout.{minute}
use go_vault.Mfa.{verify_recovery_code, validate_totp}
use go_vault.Crypto.Text.{normalize_email}
use go_vault.Crypto.Kdf.{is_empty}
use go_vault.Crypto.Keys.{new_server_salt, derive_server_auth_hash, default_server_auth_params}
use go_vault.Api.Server.{
  Request, Response, response, Server, Handler, ◌>>=◌, ◌>>◌, pure, reply, reply_if, or_reply,
  ok_or_reply, call, ask_auth, gets, modify, error, no_body, logged_in, mfa_required,
  internal_error, bad_body, authentication_required, client_ip, Outcome, stop,
}
use go_vault.Api.Reply.{
  record_event, set_auth_cookies, clear_auth_cookies, delay_login, decode_auth_hash,
}

abbrev pub mfa_challenge_ttl : ℕ
mfa_challenge_ttl = 5 * minute

pub record LoginRequest : Type 0 where
  pub email : Bytes
  pub auth_hash : Bytes

pub record LoginMfaRequest : Type 0 where
  pub mfa_token : Bytes
  pub totp_code : Option Bytes
  pub totp_secret : Option Bytes
  pub recovery_code : Option Bytes

-- Writing a response and going on, and then returning with it.
abbrev pub finish : Response → Handler (Unit {0})
finish resp s = (stop resp, s)

abbrev pub or_empty : Option Bytes → Bytes
or_empty none = []
or_empty (some b) = b

-- A missing cookie and an empty one are refused alike.
abbrev pub cookie_value : Option Bytes → Option Bytes
cookie_value none = none
cookie_value (some []) = none
cookie_value (some (c ∷ cs)) = some (c ∷ cs)

-- The condition of `switch` in PostLoginMfa and verify2FACredential.
pub data Credential : Type 0 where
  by_recovery_code : Bytes → Credential
  by_totp : Bytes → Bytes → Credential
  no_credential : Credential

abbrev pub totp_credential : Option Bytes → Option Bytes → Credential
totp_credential (some code) (some secret) = by_totp code secret
totp_credential (some code) none = no_credential
totp_credential none secret = no_credential

unfoldable pub credential : Option Bytes → Option Bytes → Option Bytes → Credential
credential none code secret = totp_credential code secret
credential (some []) code secret = totp_credential code secret
credential (some (c ∷ cs)) code secret = by_recovery_code (c ∷ cs)

module _ (p : Primitives) where
  -- createMFAToken: the raw token.
  unfoldable pub create_mfa_token : ℕ → Query Bytes
  unfolding generate_token Mfa.create_challenge
  create_mfa_token user_id = Db.◌>>=◌ generate_token λ raw. Db.◌>>=◌ (Db.gets (λ db. db.now)) λ now.
      Db.◌>>◌ (Mfa.create_challenge user_id (p.sha256 raw) (now + mfa_challenge_ttl)) (Db.pure raw)

  -- completeLogin after its cookies are set.
  unfoldable pub login_decoded : Request → User → Option KdfParams → Handler Response
  unfolding record_event
  login_decoded r user none = pure (response 500 internal_error)
  login_decoded r user (some params) = do
    record_event p r (some user.id) login_success none no_metadata
    pure (response 200 (logged_in user.protected_symmetric_key params))

  unfoldable pub session_created : Request → User → Result (Bytes × Bytes) → Handler Response
  unfolding set_auth_cookies login_decoded
  session_created r user (err e) = pure (response 500 internal_error)
  session_created r user (ok (access, refresh)) = do
    set_auth_cookies access refresh
    login_decoded r user (p.kdf_of_json user.kdf_params)

  -- The response that completeLogin writes. The cookies are set before the parameters are decoded.
  unfoldable pub complete_login : Request → User → Handler Response
  unfolding create_session_pair session_created
  complete_login r user = do
    m ← gets (λ s. s.auth)
    created ← call (create_session_pair p m user.id)
    session_created r user created

  unfoldable pub issue_challenge : Request → User → Handler (Unit {0})
  unfolding create_mfa_token record_event
  issue_challenge r user = do
    created ← call (create_mfa_token user.id)
    token ← ok_or_reply created 500 internal_error
    record_event p r (some user.id) mfa_required_event none no_metadata
    params ← or_reply (p.kdf_of_json user.kdf_params) 500 internal_error
    reply 200 (
        mfa_required token (or_empty user.protected_totp_secret) user.protected_symmetric_key
          params)

  unfoldable pub finish_login : Request → User → Handler (Unit {0})
  unfolding complete_login
  finish_login r user = do resp ← complete_login r user; finish resp

  -- What follows a correct password.
  unfoldable pub password_accepted : Request → Bytes → User → Handler (Unit {0})
  unfolding reset_login_limit issue_challenge finish_login
  password_accepted r email user = do
    modify (λ s. record s { auth = reset_login_limit s.auth (client_ip p r) email })
    if user.totp_enabled then issue_challenge r user else finish_login r user

  unfoldable pub password_refused : Request → Bytes → User → Handler (Unit {0})
  unfolding record_event delay_login
  password_refused r email user = do
    record_event p r (some user.id) login_failure none reason_invalid_credentials
    delay_login email
    reply 401 (error "invalid credentials")

  unfoldable pub check_password : Request → Bytes → Bytes → User → Handler (Unit {0})
  unfolding derive_server_auth_hash password_accepted password_refused
  check_password r email client_auth_hash user = do
    candidate ←
        ok_or_reply
          (derive_server_auth_hash p client_auth_hash user.auth_hash_salt
            default_server_auth_params)
          500 internal_error
    if bytes_eq candidate user.auth_hash
        then password_accepted r email user
        else password_refused r email user

  -- The end of PostLogin, by the result of `Users.GetByEmail`. An unknown email draws a salt, whose
  -- dummy hash is dropped.
  unfoldable pub login_found : Request → Bytes → Bytes → Result User → Handler (Unit {0})
  unfolding check_password new_server_salt delay_login
  login_found r email client_auth_hash (ok user) = check_password r email client_auth_hash user
  login_found r email client_auth_hash (err not_found) = do
    call new_server_salt
    delay_login email
    reply 401 (error "invalid credentials")
  login_found r email client_auth_hash (err e) = reply 500 internal_error

  -- `s.auth.IsLoginLocked(email) || !s.auth.CheckLoginLimit(ip, email)`
  unfoldable pub is_throttled : Bytes → Bytes → Manager → ℕ → Bool × Manager
  unfolding is_login_locked check_login_limit
  is_throttled ip email m now =
      let (locked, m') = is_login_locked m now email in
      let (allowed, m'') = check_login_limit m' now ip email in
      if locked then (true, m') else (not allowed, m'')

  unfoldable pub post_login : Request → Option LoginRequest → Handler (Unit {0})
  unfolding normalize_email is_throttled Users.get_by_email login_found
  post_login r decoded = do
    body ← or_reply decoded 400 bad_body
    let email = normalize_email p body.email
    throttled ← ask_auth (is_throttled (client_ip p r) email)
    reply_if throttled 429 (error "too many login attempts; try again later")
    client_auth_hash ←
        or_reply (decode_auth_hash p body.auth_hash) 400 (error "auth_hash must be valid base64")
    found ← call (Users.get_by_email email)
    login_found r email client_auth_hash found

  -- The switch: whether the second factor is verified.
  unfoldable pub verify_second_factor : ℕ → Credential → Handler Bool
  unfolding Mfa.consume_recovery_code verify_recovery_code validate_totp
  verify_second_factor user_id (by_recovery_code code) = do
    consumed ← call (Mfa.consume_recovery_code user_id (verify_recovery_code p code))
    ok_or_reply consumed 500 internal_error
  verify_second_factor user_id (by_totp code secret) =
      gets (λ s. validate_totp p s.db.now secret code)
  verify_second_factor user_id no_credential =
      reply 400 (error "totp_code and totp_secret or recovery_code required")

  -- mfa_success is recorded whatever completeLogin answered.
  unfoldable pub second_factor_verified : Request → ℕ → Handler (Unit {0})
  unfolding Users.get_by_id complete_login record_event
  second_factor_verified r user_id = do
    found ← call (Users.get_by_id user_id)
    user ← ok_or_reply found 500 internal_error
    resp ← complete_login r user
    record_event p r (some user_id) mfa_success none no_metadata
    finish resp

  unfoldable pub second_factor_refused : Request → ℕ → Handler (Unit {0})
  unfolding record_event
  second_factor_refused r user_id = do
    record_event p r (some user_id) mfa_failure none no_metadata
    reply 401 (error "invalid MFA code")

  unfoldable pub challenge_consumed : Request → LoginMfaRequest → Result ℕ → Handler (Unit {0})
  unfolding credential verify_second_factor second_factor_verified second_factor_refused
  challenge_consumed r body (ok user_id) = do
    verified ←
        verify_second_factor user_id (credential body.recovery_code body.totp_code body.totp_secret)
    if verified then second_factor_verified r user_id else second_factor_refused r user_id
  challenge_consumed r body (err not_found) = reply 401 (error "invalid or expired MFA challenge")
  challenge_consumed r body (err e) = reply 500 internal_error

  unfoldable pub post_login_mfa : Request → Option LoginMfaRequest → Handler (Unit {0})
  unfolding Mfa.consume_challenge challenge_consumed
  post_login_mfa r decoded = do
    body ← or_reply decoded 400 bad_body
    reply_if (is_empty body.mfa_token) 400 (error "mfa_token is required")
    consumed ← call (Mfa.consume_challenge (p.sha256 body.mfa_token))
    challenge_consumed r body consumed

  -- The end of PostAuthRefresh.
  unfoldable pub refreshed : Result (Bytes × Bytes) → Handler (Unit {0})
  unfolding set_auth_cookies clear_auth_cookies
  refreshed (ok (access, refresh)) = do set_auth_cookies access refresh; reply 204 no_body
  refreshed (err session_invalid) = do clear_auth_cookies; reply 401 authentication_required
  refreshed (err e) = reply 500 internal_error

  unfoldable pub post_auth_refresh : Request → Handler (Unit {0})
  unfolding refresh_session refreshed
  post_auth_refresh r = do
    token ← or_reply (cookie_value r.refresh) 401 authentication_required
    m ← gets (λ s. s.auth)
    rotated ← call (refresh_session p m token)
    refreshed rotated

  unfoldable pub revoke_cookie : Option Bytes → Handler (Unit {0})
  unfolding revoke_session
  revoke_cookie none = pure tt
  revoke_cookie (some token) = do call (revoke_session p token); pure tt

  -- The zero user, of a context without one, is not recorded.
  unfoldable pub record_logout : Request → Option ℕ → Handler (Unit {0})
  unfolding record_event
  record_logout r none = pure tt
  record_logout r (some user_id) = record_event p r (some user_id) logout none no_metadata

  unfoldable pub post_logout : Request → Handler (Unit {0})
  unfolding revoke_cookie clear_auth_cookies record_logout
  post_logout r = do
    revoke_cookie r.access
    clear_auth_cookies
    record_logout r r.user_id
    reply 204 no_body
