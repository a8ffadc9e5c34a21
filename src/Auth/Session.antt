-- ===== src/Auth/Session.antt =====
-- internal/auth/session.go: the life of a session. Cookies hold raw tokens, the table their hashes.
pub mod Rotation
pub mod Race
pub mod Keeps
use go_vault.Prelude.{
  ℕ, Bool, true, false, Option, none, some, if◌then◌else◌, Bytes, add_duration, is_after,
}
use go_vault.Errors.{Error, not_found, session_invalid, Result, ok, err}
use go_vault.Primitives.{Primitives, hex_encode}
use go_vault.Storage.Db.{Session, Db, Query, ◌>>=◌, ◌>>◌, pure, fail, gets, random_bytes}
use go_vault.Storage.Sessions.{
  create_pair, get_by_access_hash, get_by_refresh_hash, rotate_tokens, delete_by_access_hash,
  delete_all_for_user,
}
use go_vault.Auth.Manager.{Manager, raw_token_bytes}

unfoldable pub generate_token : Query Bytes
unfolding random_bytes hex_encode
generate_token = do b ← random_bytes raw_token_bytes; pure (hex_encode b)

module _ (p : Primitives) where
  abbrev pub hash_token : Bytes → Bytes
  hash_token raw = p.sha256 raw

  -- The raw access and refresh tokens.
  unfoldable pub create_session_pair : Manager → ℕ → Query (Bytes × Bytes)
  unfolding generate_token create_pair
  create_session_pair m user_id = do
    access ← generate_token
    refresh ← generate_token
    now ← gets (λ db. db.now)
    create_pair user_id (hash_token access) (add_duration now m.access_ttl) (hash_token refresh)
        (add_duration now m.refresh_ttl)
    pure (access, refresh)

-- `errors.Is(err, storage.ErrNotFound)` becomes ErrSessionInvalid.
abbrev pub invalid_if_missing : Error → Error
invalid_if_missing not_found = session_invalid
invalid_if_missing e = e

abbrev pub or_invalid : {A : Type 0} → Query A → Query A
or_invalid q db =
    let (r, db') = q db in elim r [ ok a ↦ (ok a, db') | err e ↦ (err (invalid_if_missing e), db') ]

module _ (p : Primitives) where
  -- `time.Now().After(sess.AccessExpiresAt)`
  unfoldable pub validate_access : Bytes → Query Session
  unfolding get_by_access_hash
  validate_access access = do
    s ← or_invalid (get_by_access_hash (hash_token p access))
    now ← gets (λ db. db.now)
    if is_after now s.access_expires_at then fail session_invalid else pure s

  -- The session that a refresh token opens, if it has not expired.
  unfoldable pub refresh_lookup : Bytes → Query Session
  unfolding get_by_refresh_hash
  refresh_lookup refresh = do
    s ← or_invalid (get_by_refresh_hash (hash_token p refresh))
    now ← gets (λ db. db.now)
    if is_after now s.refresh_expires_at then fail session_invalid else pure s

  -- New tokens for the session.
  unfoldable pub rotate : Manager → Session → Query (Bytes × Bytes)
  unfolding generate_token rotate_tokens
  rotate m s = do
    access ← generate_token
    refresh ← generate_token
    now ← gets (λ db. db.now)
    rotate_tokens s.id (hash_token p access) (add_duration now m.access_ttl) (hash_token p refresh)
        (add_duration now m.refresh_ttl)
    pure (access, refresh)

  unfoldable pub refresh_session : Manager → Bytes → Query (Bytes × Bytes)
  unfolding refresh_lookup rotate
  refresh_session m refresh = do s ← refresh_lookup refresh; rotate m s

  unfoldable pub revoke_session : Bytes → Query (Unit {0})
  unfolding delete_by_access_hash
  revoke_session access = delete_by_access_hash (hash_token p access)

unfoldable pub revoke_all_sessions : ℕ → Query (Unit {0})
unfolding delete_all_for_user
revoke_all_sessions user_id = delete_all_for_user user_id
