-- ===== src/Api/TwoFactor/Guards.antt =====
-- What the second-factor handlers of internal/api/handlers_phase5.go refuse.
use go_vault.Prelude.{ℕ, ◌≡◌, true, false, Option, none, some, arith, Bytes}
use go_vault.Primitives.{Primitives}
use go_vault.Storage.Db.{User}
use go_vault.Storage.Users.{user_by_id}
use go_vault.Storage.Mfa.{get_totp_status}
use go_vault.Mfa.{validate_totp}
use go_vault.Api.Server.{Request, Server}
use go_vault.Api.Login.{credential, by_totp}
use go_vault.Api.Reply.{validate_ciphertext}
use go_vault.Api.TwoFactor.{
  Enroll2faRequest, Disable2faRequest, RegenerateRecoveryCodesRequest, totp_is_valid,
  verify_2fa_credential, post_user_2fa_enroll, delete_user_2fa, post_user_2fa_recovery_codes,
}

-- The users, with their second factors, and the recovery codes are as they were.
pub record SameFactors (s t : Server) : Type 0 where
  pub users : t.db.users ≡ s.db.users
  pub recovery_codes : t.db.recovery_codes ≡ s.db.recovery_codes

-- A user whose second factor is enabled cannot enrol again: whatever the request holds and whatever
-- the database does, no second factor and no recovery code changes.
pub enroll_once :
    (p : Primitives) (r : Request) (body : Option Enroll2faRequest) (s : Server) (id : ℕ) (u : User)
    → r.user_id ≡ some id
    → user_by_id id s.db.users ≡ some u
    → u.totp_enabled ≡ true
    → SameFactors s (post_user_2fa_enroll p r body s).1
unfolding post_user_2fa_enroll validate_ciphertext totp_is_valid get_totp_status
enroll_once p r none s id u who here enabled = ground arith
enroll_once p r (some body) s id u who here enabled = ground (arith, here, enabled)

-- A TOTP code that does not fit the secret it came with enrols nobody, disables nothing and replaces
-- no recovery codes.
pub wrong_code_keeps :
    (p : Primitives) (r : Request) (s : Server) (enroll : Enroll2faRequest)
    (disable : Disable2faRequest) (renew : RegenerateRecoveryCodesRequest) (code secret : Bytes)
    → validate_totp p s.db.now enroll.totp_secret enroll.totp_code ≡ false
    → credential disable.recovery_code disable.totp_code disable.totp_secret ≡ by_totp code secret
    → validate_totp p s.db.now secret code ≡ false
    → validate_totp p s.db.now renew.totp_secret renew.totp_code ≡ false
    → SameFactors s (post_user_2fa_enroll p r (some enroll) s).1
      × SameFactors s (delete_user_2fa p r (some disable) s).1
      × SameFactors s (post_user_2fa_recovery_codes p r (some renew) s).1
unfolding post_user_2fa_enroll delete_user_2fa post_user_2fa_recovery_codes validate_ciphertext
    totp_is_valid verify_2fa_credential
wrong_code_keeps p r s enroll disable renew code secret bad_enroll given bad_disable bad_renew =
    (ground arith, ground arith, ground arith)
