-- ===== src/Api/TwoFactor.antt =====
-- internal/api/handlers_phase5.go: PostUser2faEnroll, DeleteUser2fa and PostUser2faRecoveryCodes.
pub mod Guards
use go_vault.Prelude.{ℕ, Bool, false, not, List, Option, none, some, Bytes}
use go_vault.Errors.{Result, ok, err}
use go_vault.Primitives.{Primitives}
use go_vault.Storage.Db.{totp_enroll, totp_disable, recovery_codes_regen, no_metadata}
use go_vault.Storage.Mfa
use go_vault.Mfa.{validate_totp, verify_recovery_code, generate_recovery_codes}
use go_vault.Api.Server.{
  Request, Handler, ◌>>=◌, ◌>>◌, pure, reply, reply_if, or_reply, ok_or_reply, call, gets, error,
  no_body, recovery_codes, internal_error, bad_body, authentication_required,
}
use go_vault.Api.Reply.{record_event, validate_ciphertext}
use go_vault.Api.Login.{Credential, by_recovery_code, by_totp, no_credential, credential}

pub record Enroll2faRequest : Type 0 where
  pub totp_secret : Bytes
  pub totp_code : Bytes
  pub protected_totp_secret : Bytes

pub record Disable2faRequest : Type 0 where
  pub totp_code : Option Bytes
  pub totp_secret : Option Bytes
  pub recovery_code : Option Bytes

pub record RegenerateRecoveryCodesRequest : Type 0 where
  pub totp_secret : Bytes
  pub totp_code : Bytes

-- An error of ConsumeRecoveryCode comes with false.
abbrev pub or_false : Result Bool → Bool
or_false (ok b) = b
or_false (err e) = false

module _ (p : Primitives) where
  unfoldable pub totp_is_valid : Bytes → Bytes → Handler Bool
  unfolding validate_totp
  totp_is_valid secret code = gets (λ s. validate_totp p s.db.now secret code)

  -- New codes replace the stored ones.
  unfoldable pub issue_recovery_codes : ℕ → Handler (List Bytes)
  unfolding generate_recovery_codes Mfa.replace_recovery_codes
  issue_recovery_codes user_id = do
    generated ← call (generate_recovery_codes p)
    codes ← ok_or_reply generated 500 internal_error
    stored ← call (Mfa.replace_recovery_codes user_id codes.1)
    ok_or_reply stored 500 internal_error
    pure codes.0

  unfoldable pub post_user_2fa_enroll : Request → Option Enroll2faRequest → Handler (Unit {0})
  unfolding validate_ciphertext totp_is_valid Mfa.get_totp_status Mfa.enable_totp
      issue_recovery_codes record_event
  post_user_2fa_enroll r decoded = do
    user_id ← or_reply r.user_id 401 authentication_required
    body ← or_reply decoded 400 bad_body
    validate_ciphertext p body.protected_totp_secret
    valid ← totp_is_valid body.totp_secret body.totp_code
    reply_if (not valid) 400 (error "invalid TOTP code")
    status ← call (Mfa.get_totp_status user_id)
    current ← ok_or_reply status 500 internal_error
    reply_if current.0 400 (error "2FA is already enabled")
    enabled ← call (Mfa.enable_totp user_id body.protected_totp_secret)
    ok_or_reply enabled 500 (error "failed to enable 2FA")
    codes ← issue_recovery_codes user_id
    record_event p r (some user_id) totp_enroll none no_metadata
    reply 200 (recovery_codes codes)

  -- verify2FACredential
  unfoldable pub verify_2fa_credential : ℕ → Credential → Handler Bool
  unfolding Mfa.consume_recovery_code verify_recovery_code totp_is_valid
  verify_2fa_credential user_id (by_recovery_code code) = do
    consumed ← call (Mfa.consume_recovery_code user_id (verify_recovery_code p code))
    pure (or_false consumed)
  verify_2fa_credential user_id (by_totp code secret) = totp_is_valid secret code
  verify_2fa_credential user_id no_credential = pure false

  unfoldable pub delete_user_2fa : Request → Option Disable2faRequest → Handler (Unit {0})
  unfolding credential verify_2fa_credential Mfa.disable_totp record_event
  delete_user_2fa r decoded = do
    user_id ← or_reply r.user_id 401 authentication_required
    body ← or_reply decoded 400 bad_body
    verified ←
        verify_2fa_credential user_id
          (credential body.recovery_code body.totp_code body.totp_secret)
    reply_if (not verified) 401 (error "invalid verification code")
    disabled ← call (Mfa.disable_totp user_id)
    ok_or_reply disabled 500 (error "failed to disable 2FA")
    record_event p r (some user_id) totp_disable none no_metadata
    reply 204 no_body

  unfoldable pub post_user_2fa_recovery_codes :
      Request → Option RegenerateRecoveryCodesRequest → Handler (Unit {0})
  unfolding totp_is_valid issue_recovery_codes record_event
  post_user_2fa_recovery_codes r decoded = do
    user_id ← or_reply r.user_id 401 authentication_required
    body ← or_reply decoded 400 bad_body
    valid ← totp_is_valid body.totp_secret body.totp_code
    reply_if (not valid) 401 (error "invalid TOTP code")
    codes ← issue_recovery_codes user_id
    record_event p r (some user_id) recovery_codes_regen none no_metadata
    reply 200 (recovery_codes codes)
