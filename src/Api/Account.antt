-- ===== src/Api/Account.antt =====
-- internal/api/handlers.go: DeleteUser and PutUserKey.
pub mod Deletion
pub mod Rotation
use go_vault.Prelude.{ℕ, Bool, true, false, Option, none, some, Bytes}
use go_vault.Errors.{Error, not_found, Result, ok, err}
use go_vault.Primitives.{Primitives, KdfParams}
use go_vault.Storage.Db.{User, user_delete, key_rotation, no_metadata}
use go_vault.Storage.Users
use go_vault.Auth.Session.{revoke_all_sessions}
use go_vault.Crypto.Keys.{new_server_salt, derive_server_auth_hash, default_server_auth_params}
use go_vault.Api.Server.{
  Request, Handler, ◌>>=◌, ◌>>◌, pure, reply, or_reply, ok_or_reply, call, error, no_body,
  internal_error, bad_body, authentication_required,
}
use go_vault.Api.Reply.{record_event, clear_auth_cookies, validate_ciphertext, decode_auth_hash}

pub record UpdateKeyRequest : Type 0 where
  pub auth_hash : Bytes
  pub protected_symmetric_key : Bytes
  pub kdf : KdfParams

module _ (p : Primitives) where
  -- The account is gone, or was not there.
  unfoldable pub account_deleted : Request → ℕ → Handler (Unit {0})
  unfolding clear_auth_cookies record_event
  account_deleted r user_id = do
    clear_auth_cookies
    record_event p r (some user_id) user_delete none no_metadata
    reply 204 no_body

  unfoldable pub user_removed : Request → ℕ → Result (Unit {0}) → Handler (Unit {0})
  unfolding account_deleted
  user_removed r user_id (ok u) = account_deleted r user_id
  user_removed r user_id (err not_found) = account_deleted r user_id
  user_removed r user_id (err e) = reply 500 (error "failed to delete account")

  -- A failure to revoke the sessions is only logged.
  unfoldable pub delete_user : Request → Handler (Unit {0})
  unfolding revoke_all_sessions Users.delete_user user_removed
  delete_user r = do
    user_id ← or_reply r.user_id 401 authentication_required
    call (revoke_all_sessions user_id)
    removed ← call (Users.delete_user user_id)
    user_removed r user_id removed

  -- The end of PutUserKey, by the new hash and the new salt.
  unfoldable pub rekey : Request → ℕ → UpdateKeyRequest → Bytes → Bytes → Handler (Unit {0})
  unfolding Users.update_auth_credentials record_event
  rekey r user_id body new_server_hash new_salt = do
    updated ← call (
        Users.update_auth_credentials user_id new_server_hash new_salt (p.kdf_to_json body.kdf)
          body.protected_symmetric_key)
    ok_or_reply updated 500 (error "failed to update credentials")
    record_event p r (some user_id) key_rotation none no_metadata
    reply 200 no_body

  unfoldable pub put_user_key : Request → Option UpdateKeyRequest → Handler (Unit {0})
  unfolding validate_ciphertext new_server_salt derive_server_auth_hash rekey
  put_user_key r decoded = do
    user_id ← or_reply r.user_id 401 authentication_required
    body ← or_reply decoded 400 bad_body
    new_auth_hash ←
        or_reply (decode_auth_hash p body.auth_hash) 400 (error "auth_hash must be valid base64")
    validate_ciphertext p body.protected_symmetric_key
    drawn ← call new_server_salt
    new_salt ← ok_or_reply drawn 500 internal_error
    new_server_hash ←
        ok_or_reply (derive_server_auth_hash p new_auth_hash new_salt default_server_auth_params)
          500 internal_error
    rekey r user_id body new_server_hash new_salt
