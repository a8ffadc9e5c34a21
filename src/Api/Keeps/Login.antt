-- ===== src/Api/Keeps/Login.antt =====
-- What the login handlers of internal/api keep of the tables.
use go_vault.Prelude.{ℕ, ◌+◌, refl, Option, none, some, Bytes, bytes_eq}
use go_vault.Errors.{not_found, Result, ok, err}
use go_vault.Primitives.{Primitives, KdfParams}
use go_vault.Storage.Db.{
  User, Db, login_failure, login_success, mfa_required as mfa_required_event, mfa_success,
  mfa_failure, no_metadata, reason_invalid_credentials,
}
use go_vault.Storage.Keeps.{Keeps, kept_bind, kept_gets, kept_then, kept_pure}
use go_vault.Storage.Closed.{
  Closed, get_by_email-Keeps, get_by_id-Keeps, create_challenge-Keeps, consume_challenge-Keeps,
  consume_recovery_code-Keeps,
}
use go_vault.Auth.Manager.{reset_login_limit}
use go_vault.Auth.Session.Keeps.{
  generate_token-Keeps, new_server_salt-Keeps, create_session_pair-Keeps,
}
use go_vault.Mfa.{verify_recovery_code}
use go_vault.Crypto.Text.{normalize_email}
use go_vault.Api.Server.{Request, Response, client_ip, internal_error, mfa_required, error}
use go_vault.Api.Reply.{decode_auth_hash}
use go_vault.Api.Keeps.{
  HandlerKeeps, h_pure, h_reply, h_gets, h_or_reply, h_ok_or_reply, h_call, h_ask_auth, h_if,
  h_bind, h_then, h_reply_if, h_modify, set_auth_cookies-HandlerKeeps, delay_login-HandlerKeeps,
  record_event-HandlerKeeps,
}
use go_vault.Api.Login.{
  LoginRequest, LoginMfaRequest, mfa_challenge_ttl, Credential, by_recovery_code, by_totp,
  no_credential, credential, or_empty, create_mfa_token, login_decoded, session_created,
  complete_login, issue_challenge, finish, finish_login, password_accepted, password_refused,
  check_password, login_found, is_throttled, post_login, verify_second_factor,
  second_factor_verified, second_factor_refused, challenge_consumed, post_login_mfa,
}

module _ {P : Db → Type 0} (c : Closed P) (p : Primitives) where
  create_mfa_token-Keeps : (user_id : ℕ) → Keeps P (create_mfa_token p user_id)
  unfolding create_mfa_token
  create_mfa_token-Keeps user_id = kept_bind (generate_token-Keeps c) λ raw.
      kept_bind (kept_gets (λ db. db.now)) λ now.
        kept_then (create_challenge-Keeps c user_id (p.sha256 raw) (now + mfa_challenge_ttl))
          (kept_pure raw)

h_finish : {P : Db → Type 0} (resp : Response) → HandlerKeeps P (finish resp)
h_finish resp = record { at = λ s h. h }

module _ {P : Db → Type 0} (c : Closed P) (p : Primitives) (r : Request) where
  login_decoded-HandlerKeeps :
      (user : User) (params : Option KdfParams) → HandlerKeeps P (login_decoded p r user params)
  unfolding login_decoded
  login_decoded-HandlerKeeps user none = h_pure _
  login_decoded-HandlerKeeps user (some params) =
      h_then (record_event-HandlerKeeps c p r (some user.id) login_success none no_metadata)
        (h_pure _)

  session_created-HandlerKeeps :
      (user : User) (created : Result (Bytes × Bytes))
      → HandlerKeeps P (session_created p r user created)
  unfolding session_created
  session_created-HandlerKeeps user (err e) = h_pure _
  session_created-HandlerKeeps user (ok (access, refresh)) =
      h_then (set_auth_cookies-HandlerKeeps access refresh)
        (login_decoded-HandlerKeeps user (p.kdf_of_json user.kdf_params))

  complete_login-HandlerKeeps : (user : User) → HandlerKeeps P (complete_login p r user)
  unfolding complete_login
  complete_login-HandlerKeeps user = h_bind (h_gets (λ s. s.auth)) λ m.
      h_bind (h_call (create_session_pair-Keeps c p m user.id)) (session_created-HandlerKeeps user)

  issue_challenge-HandlerKeeps : (user : User) → HandlerKeeps P (issue_challenge p r user)
  unfolding issue_challenge
  issue_challenge-HandlerKeeps user =
      h_bind (h_call (create_mfa_token-Keeps c p user.id)) λ created.
        h_bind (h_ok_or_reply created 500 internal_error) λ token.
          h_then
            (record_event-HandlerKeeps c p r (some user.id) mfa_required_event none no_metadata)
            (h_bind (h_or_reply (p.kdf_of_json user.kdf_params) 500 internal_error) λ params.
              h_reply 200 (
                mfa_required token (or_empty user.protected_totp_secret)
                  user.protected_symmetric_key params))

  finish_login-HandlerKeeps : (user : User) → HandlerKeeps P (finish_login p r user)
  unfolding finish_login
  finish_login-HandlerKeeps user = h_bind (complete_login-HandlerKeeps user) h_finish

  password_accepted-HandlerKeeps :
      (email : Bytes) (user : User) → HandlerKeeps P (password_accepted p r email user)
  unfolding password_accepted
  password_accepted-HandlerKeeps email user =
      h_then
        (h_modify (λ s. record s { auth = reset_login_limit s.auth (client_ip p r) email })
          (λ s. refl))
        (h_if user.totp_enabled (issue_challenge-HandlerKeeps user)
          (finish_login-HandlerKeeps user))

  password_refused-HandlerKeeps :
      (email : Bytes) (user : User) → HandlerKeeps P (password_refused p r email user)
  unfolding password_refused
  password_refused-HandlerKeeps email user =
      h_then
        (record_event-HandlerKeeps c p r (some user.id) login_failure none
          reason_invalid_credentials)
        (h_then (delay_login-HandlerKeeps email) (h_reply _ _))

  check_password-HandlerKeeps :
      (email hash : Bytes) (user : User) → HandlerKeeps P (check_password p r email hash user)
  unfolding check_password
  check_password-HandlerKeeps email hash user = h_bind (h_ok_or_reply _ _ _) λ candidate.
      h_if (bytes_eq candidate user.auth_hash) (password_accepted-HandlerKeeps email user)
        (password_refused-HandlerKeeps email user)

  login_found-HandlerKeeps :
      (email hash : Bytes) (found : Result User) → HandlerKeeps P (login_found p r email hash found)
  unfolding login_found
  login_found-HandlerKeeps email hash (ok user) = check_password-HandlerKeeps email hash user
  login_found-HandlerKeeps email hash (err not_found) =
      h_then (h_call (new_server_salt-Keeps c))
        (h_then (delay_login-HandlerKeeps email) (h_reply _ _))
  login_found-HandlerKeeps email hash (err e) = h_reply _ _

  pub post_login-HandlerKeeps :
      (decoded : Option LoginRequest) → HandlerKeeps P (post_login p r decoded)
  unfolding post_login
  post_login-HandlerKeeps decoded = h_bind (h_or_reply decoded _ _) λ body.
      h_bind (h_ask_auth (is_throttled p (client_ip p r) (normalize_email p body.email)))
        λ throttled.
          h_then (h_reply_if throttled 429 (error "too many login attempts; try again later")) (
            h_bind
              (h_or_reply (decode_auth_hash p body.auth_hash) 400
                (error "auth_hash must be valid base64"))
              λ hash.
                h_bind (h_call (get_by_email-Keeps c (normalize_email p body.email)))
                  (login_found-HandlerKeeps (normalize_email p body.email) hash))

  verify_second_factor-HandlerKeeps :
      (user_id : ℕ) (given : Credential) → HandlerKeeps P (verify_second_factor p user_id given)
  unfolding verify_second_factor
  verify_second_factor-HandlerKeeps user_id (by_recovery_code code) =
      h_bind (h_call (consume_recovery_code-Keeps c user_id (verify_recovery_code p code)))
        (λ consumed. h_ok_or_reply consumed 500 internal_error)
  verify_second_factor-HandlerKeeps user_id (by_totp code secret) = h_gets _
  verify_second_factor-HandlerKeeps user_id no_credential = h_reply _ _

  second_factor_verified-HandlerKeeps :
      (user_id : ℕ) → HandlerKeeps P (second_factor_verified p r user_id)
  unfolding second_factor_verified
  second_factor_verified-HandlerKeeps user_id = h_bind (h_call (get_by_id-Keeps c user_id)) λ found.
      h_bind (h_ok_or_reply found 500 internal_error) λ user.
        h_bind (complete_login-HandlerKeeps user) λ resp.
          h_then (record_event-HandlerKeeps c p r (some user_id) mfa_success none no_metadata)
            (h_finish resp)

  challenge_consumed-HandlerKeeps :
      (body : LoginMfaRequest) (consumed : Result ℕ)
      → HandlerKeeps P (challenge_consumed p r body consumed)
  unfolding challenge_consumed second_factor_refused
  challenge_consumed-HandlerKeeps body (ok user_id) =
      h_bind
        (verify_second_factor-HandlerKeeps user_id
          (credential body.recovery_code body.totp_code body.totp_secret))
        λ verified. h_if verified (second_factor_verified-HandlerKeeps user_id) (
          h_then (record_event-HandlerKeeps c p r (some user_id) mfa_failure none no_metadata)
            (h_reply _ _))
  challenge_consumed-HandlerKeeps body (err not_found) = h_reply _ _
  challenge_consumed-HandlerKeeps body (err e) = h_reply _ _

  pub post_login_mfa-HandlerKeeps :
      (decoded : Option LoginMfaRequest) → HandlerKeeps P (post_login_mfa p r decoded)
  unfolding post_login_mfa
  post_login_mfa-HandlerKeeps decoded = h_bind (h_or_reply decoded _ _) λ body.
      h_then (h_reply_if _ _ _) (
        h_bind (h_call (consume_challenge-Keeps c (p.sha256 body.mfa_token)))
          (challenge_consumed-HandlerKeeps body))
