-- ===== src/Api/Keeps/Account.antt =====
-- What the account and second factor handlers of internal/api keep of the tables.
use go_vault.Prelude.{ℕ, false, not, Option, none, some, Bytes}
use go_vault.Errors.{not_found, Result, ok, err}
use go_vault.Primitives.{Primitives}
use go_vault.Storage.Db.{
  Db, user_delete, key_rotation, totp_enroll, totp_disable, recovery_codes_regen, no_metadata,
}
use go_vault.Storage.Closed.{
  Closed, delete_user-Keeps, update_auth_credentials-Keeps, get_totp_status-Keeps,
  enable_totp-Keeps, disable_totp-Keeps, consume_recovery_code-Keeps,
}
use go_vault.Auth.Session.Keeps.{
  new_server_salt-Keeps, revoke_all_sessions-Keeps, generate_recovery_codes-Keeps,
}
use go_vault.Mfa.{verify_recovery_code}
use go_vault.Crypto.Keys.{derive_server_auth_hash, default_server_auth_params}
use go_vault.Api.Server.{
  Request, internal_error, error, bad_body, authentication_required, no_body, recovery_codes,
}
use go_vault.Api.Reply.{decode_auth_hash}
use go_vault.Api.Keeps.{
  HandlerKeeps, h_pure, h_reply, h_gets, h_or_reply, h_ok_or_reply, h_call, h_bind, h_then,
  h_reply_if, clear_auth_cookies-HandlerKeeps, validate_ciphertext-HandlerKeeps,
  record_event-HandlerKeeps,
}
use go_vault.Api.Login.{Credential, by_recovery_code, by_totp, no_credential, credential}
use go_vault.Api.Account.{
  UpdateKeyRequest, account_deleted, user_removed, delete_user, rekey, put_user_key,
}
use go_vault.Api.TwoFactor.{
  Enroll2faRequest, Disable2faRequest, RegenerateRecoveryCodesRequest, or_false, totp_is_valid,
  issue_recovery_codes, post_user_2fa_enroll, verify_2fa_credential, delete_user_2fa,
  post_user_2fa_recovery_codes,
}

module _ {P : Db → Type 0} (c : Closed P) (p : Primitives) (r : Request) where
  account_deleted-HandlerKeeps : (user_id : ℕ) → HandlerKeeps P (account_deleted p r user_id)
  unfolding account_deleted
  account_deleted-HandlerKeeps user_id = h_then clear_auth_cookies-HandlerKeeps (
      h_then (record_event-HandlerKeeps c p r (some user_id) user_delete none no_metadata)
        (h_reply 204 no_body))

  pub user_removed-HandlerKeeps :
      (user_id : ℕ) (removed : Result (Unit {0}))
      → HandlerKeeps P (user_removed p r user_id removed)
  unfolding user_removed
  user_removed-HandlerKeeps user_id (ok u) = account_deleted-HandlerKeeps user_id
  user_removed-HandlerKeeps user_id (err not_found) = account_deleted-HandlerKeeps user_id
  user_removed-HandlerKeeps user_id (err e) = h_reply _ _

  pub delete_user-HandlerKeeps : HandlerKeeps P (delete_user p r)
  unfolding delete_user
  delete_user-HandlerKeeps = h_bind (h_or_reply r.user_id 401 authentication_required) λ user_id.
      h_then (h_call (revoke_all_sessions-Keeps c user_id))
        (h_bind (h_call (delete_user-Keeps c user_id)) (user_removed-HandlerKeeps user_id))

  rekey-HandlerKeeps :
      (user_id : ℕ) (body : UpdateKeyRequest) (hash salt : Bytes)
      → HandlerKeeps P (rekey p r user_id body hash salt)
  unfolding rekey
  rekey-HandlerKeeps user_id body hash salt =
      h_bind
        (h_call (
          update_auth_credentials-Keeps c user_id hash salt (p.kdf_to_json body.kdf)
            body.protected_symmetric_key))
        λ updated. h_then (h_ok_or_reply updated 500 (error "failed to update credentials")) (
          h_then (record_event-HandlerKeeps c p r (some user_id) key_rotation none no_metadata)
            (h_reply 200 no_body))

  pub put_user_key-HandlerKeeps :
      (decoded : Option UpdateKeyRequest) → HandlerKeeps P (put_user_key p r decoded)
  unfolding put_user_key
  put_user_key-HandlerKeeps decoded =
      h_bind (h_or_reply r.user_id 401 authentication_required) λ user_id.
        h_bind (h_or_reply decoded 400 bad_body) λ body.
          h_bind
            (h_or_reply (decode_auth_hash p body.auth_hash) 400
              (error "auth_hash must be valid base64"))
            λ client_hash.
              h_then (validate_ciphertext-HandlerKeeps p body.protected_symmetric_key) (
                h_bind (h_call (new_server_salt-Keeps c)) λ drawn.
                  h_bind (h_ok_or_reply drawn 500 internal_error) λ salt.
                    h_bind
                      (h_ok_or_reply
                        (derive_server_auth_hash p client_hash salt default_server_auth_params) 500
                        internal_error)
                      (λ hash. rekey-HandlerKeeps user_id body hash salt))

  totp_is_valid-HandlerKeeps : (secret code : Bytes) → HandlerKeeps P (totp_is_valid p secret code)
  unfolding totp_is_valid
  totp_is_valid-HandlerKeeps secret code = h_gets _

  issue_recovery_codes-HandlerKeeps :
      (user_id : ℕ) → HandlerKeeps P (issue_recovery_codes p user_id)
  unfolding issue_recovery_codes
  issue_recovery_codes-HandlerKeeps user_id =
      h_bind (h_call (generate_recovery_codes-Keeps c p)) λ generated.
        h_bind (h_ok_or_reply generated 500 internal_error) λ codes.
          h_bind (h_call (c.replaces_codes user_id codes.1))
            λ stored. h_then (h_ok_or_reply stored 500 internal_error) (h_pure codes.0)

  pub post_user_2fa_enroll-HandlerKeeps :
      (decoded : Option Enroll2faRequest) → HandlerKeeps P (post_user_2fa_enroll p r decoded)
  unfolding post_user_2fa_enroll
  post_user_2fa_enroll-HandlerKeeps decoded =
      h_bind (h_or_reply r.user_id 401 authentication_required) λ user_id.
        h_bind (h_or_reply decoded 400 bad_body) λ body.
          h_then (validate_ciphertext-HandlerKeeps p body.protected_totp_secret) (
            h_bind (totp_is_valid-HandlerKeeps body.totp_secret body.totp_code) λ valid.
              h_then (h_reply_if (not valid) 400 (error "invalid TOTP code")) (
                h_bind (h_call (get_totp_status-Keeps c user_id)) λ status.
                  h_bind (h_ok_or_reply status 500 internal_error) λ current.
                    h_then (h_reply_if current.0 400 (error "2FA is already enabled")) (
                      h_bind (h_call (enable_totp-Keeps c user_id body.protected_totp_secret))
                        λ enabled.
                          h_then (h_ok_or_reply enabled 500 (error "failed to enable 2FA")) (
                            h_bind (issue_recovery_codes-HandlerKeeps user_id) λ codes.
                              h_then
                                (record_event-HandlerKeeps c p r (some user_id) totp_enroll none
                                  no_metadata)
                                (h_reply 200 (recovery_codes codes))))))

  verify_2fa_credential-HandlerKeeps :
      (user_id : ℕ) (given : Credential) → HandlerKeeps P (verify_2fa_credential p user_id given)
  unfolding verify_2fa_credential
  verify_2fa_credential-HandlerKeeps user_id (by_recovery_code code) =
      h_bind (h_call (consume_recovery_code-Keeps c user_id (verify_recovery_code p code)))
        (λ consumed. h_pure (or_false consumed))
  verify_2fa_credential-HandlerKeeps user_id (by_totp code secret) =
      totp_is_valid-HandlerKeeps secret code
  verify_2fa_credential-HandlerKeeps user_id no_credential = h_pure false

  pub delete_user_2fa-HandlerKeeps :
      (decoded : Option Disable2faRequest) → HandlerKeeps P (delete_user_2fa p r decoded)
  unfolding delete_user_2fa
  delete_user_2fa-HandlerKeeps decoded =
      h_bind (h_or_reply r.user_id 401 authentication_required) λ user_id.
        h_bind (h_or_reply decoded 400 bad_body) λ body.
          h_bind
            (verify_2fa_credential-HandlerKeeps user_id
              (credential body.recovery_code body.totp_code body.totp_secret))
            λ verified. h_then (h_reply_if (not verified) 401 (error "invalid verification code")) (
              h_bind (h_call (disable_totp-Keeps c user_id)) λ disabled.
                h_then (h_ok_or_reply disabled 500 (error "failed to disable 2FA")) (
                  h_then
                    (record_event-HandlerKeeps c p r (some user_id) totp_disable none no_metadata)
                    (h_reply 204 no_body)))

  pub post_user_2fa_recovery_codes-HandlerKeeps :
      (decoded : Option RegenerateRecoveryCodesRequest)
      → HandlerKeeps P (post_user_2fa_recovery_codes p r decoded)
  unfolding post_user_2fa_recovery_codes
  post_user_2fa_recovery_codes-HandlerKeeps decoded =
      h_bind (h_or_reply r.user_id 401 authentication_required) λ user_id.
        h_bind (h_or_reply decoded 400 bad_body) λ body.
          h_bind (totp_is_valid-HandlerKeeps body.totp_secret body.totp_code) λ valid.
            h_then (h_reply_if (not valid) 401 (error "invalid TOTP code")) (
              h_bind (issue_recovery_codes-HandlerKeeps user_id) λ codes.
                h_then
                  (record_event-HandlerKeeps c p r (some user_id) recovery_codes_regen none
                    no_metadata)
                  (h_reply 200 (recovery_codes codes)))
