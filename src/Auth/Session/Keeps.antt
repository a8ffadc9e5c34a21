-- ===== src/Auth/Session/Keeps.antt =====
-- What internal/auth/session.go and the generators of internal/mfa/totp.go and internal/crypto/keys.go
-- keep of the tables.
use go_vault.Prelude.{ℕ, zero, suc, ◌≡◌, arith, Bytes, add_duration, is_after}
use go_vault.Errors.{session_invalid}
use go_vault.Primitives.{Primitives}
use go_vault.Storage.Db.{Session, Db, Query}
use go_vault.Storage.Sessions.{
  create_pair, rotate_tokens, delete_by_access_hash, delete_all_for_user, get_by_access_hash,
  get_by_refresh_hash,
}
use go_vault.Storage.Keeps.{Keeps, kept_bind, kept_gets, kept_then, kept_if, kept_pure, kept_fail}
use go_vault.Storage.Closed.{Closed, get_by_access_hash-Keeps, get_by_refresh_hash-Keeps}
use go_vault.Auth.Manager.{Manager, raw_token_bytes}
use go_vault.Auth.Session.{
  generate_token, hash_token, create_session_pair, or_invalid, validate_access, refresh_lookup,
  rotate, refresh_session, revoke_session, revoke_all_sessions,
}
use go_vault.Crypto.Keys.{new_server_salt, server_salt_size_bytes}
use go_vault.Mfa.{random_recovery_code, draw_codes, generate_recovery_codes, recovery_code_count}

module _ {P : Db → Type 0} (c : Closed P) where
  pub generate_token-Keeps : Keeps P generate_token
  unfolding generate_token
  generate_token-Keeps = kept_bind (c.draws raw_token_bytes) (λ b. kept_pure _)

  pub new_server_salt-Keeps : Keeps P new_server_salt
  unfolding new_server_salt
  new_server_salt-Keeps = c.draws server_salt_size_bytes

  kept_or_invalid : {A : Type 0} (q : Query A) → Keeps P q → Keeps P (or_invalid q)
  kept_or_invalid q k = record { at = λ db h. rw (same db) (k.at db h) }
    where
      same : (db : Db) → (or_invalid q db).1 ≡ (q db).1
      same db = ground arith

  pub revoke_all_sessions-Keeps : (user_id : ℕ) → Keeps P (revoke_all_sessions user_id)
  unfolding revoke_all_sessions delete_all_for_user
  revoke_all_sessions-Keeps user_id = c.deletes_sessions user_id

module _ {P : Db → Type 0} (c : Closed P) (p : Primitives) where
  pub create_session_pair-Keeps :
      (m : Manager) (user_id : ℕ) → Keeps P (create_session_pair p m user_id)
  unfolding create_session_pair create_pair
  create_session_pair-Keeps m user_id = kept_bind (generate_token-Keeps c) λ access.
      kept_bind (generate_token-Keeps c) λ refresh. kept_bind (kept_gets (λ db. db.now)) λ now.
        kept_then
          (c.creates_session user_id (p.sha256 access) (add_duration now m.access_ttl)
            (p.sha256 refresh) (add_duration now m.refresh_ttl))
          (kept_pure (access, refresh))

  pub validate_access-Keeps : (token : Bytes) → Keeps P (validate_access p token)
  unfolding validate_access
  validate_access-Keeps token =
      kept_bind
        (kept_or_invalid c (get_by_access_hash (hash_token p token))
          (get_by_access_hash-Keeps c (hash_token p token)))
        (λ s. kept_bind (kept_gets (λ db. db.now)) λ now.
          kept_if (is_after now s.access_expires_at) (kept_fail session_invalid) (kept_pure s))

  refresh_lookup-Keeps : (token : Bytes) → Keeps P (refresh_lookup p token)
  unfolding refresh_lookup
  refresh_lookup-Keeps token =
      kept_bind
        (kept_or_invalid c (get_by_refresh_hash (hash_token p token))
          (get_by_refresh_hash-Keeps c (hash_token p token)))
        (λ s. kept_bind (kept_gets (λ db. db.now)) λ now.
          kept_if (is_after now s.refresh_expires_at) (kept_fail session_invalid) (kept_pure s))

  rotate-Keeps : (m : Manager) (s : Session) → Keeps P (rotate p m s)
  unfolding rotate rotate_tokens
  rotate-Keeps m s = kept_bind (generate_token-Keeps c) λ access.
      kept_bind (generate_token-Keeps c) λ refresh. kept_bind (kept_gets (λ db. db.now)) λ now.
        kept_then
          (c.rotates_session s.id (p.sha256 access) (add_duration now m.access_ttl)
            (p.sha256 refresh) (add_duration now m.refresh_ttl))
          (kept_pure (access, refresh))

  pub refresh_session-Keeps : (m : Manager) (token : Bytes) → Keeps P (refresh_session p m token)
  unfolding refresh_session
  refresh_session-Keeps m token = kept_bind (refresh_lookup-Keeps token) (λ s. rotate-Keeps m s)

  pub revoke_session-Keeps : (token : Bytes) → Keeps P (revoke_session p token)
  unfolding revoke_session delete_by_access_hash
  revoke_session-Keeps token = c.deletes_session (hash_token p token)

  random_recovery_code-Keeps : Keeps P (random_recovery_code p)
  unfolding random_recovery_code
  random_recovery_code-Keeps = kept_bind (c.draws 4) (λ b. kept_pure _)

  draw_codes-Keeps : (n : ℕ) → Keeps P (draw_codes p n)
  unfolding draw_codes
  draw_codes-Keeps zero = kept_pure _
  draw_codes-Keeps (suc n) =
      kept_bind random_recovery_code-Keeps
        λ code. kept_bind (draw_codes-Keeps n) (λ codes. kept_pure _)

  pub generate_recovery_codes-Keeps : Keeps P (generate_recovery_codes p)
  unfolding generate_recovery_codes
  generate_recovery_codes-Keeps =
      kept_bind (draw_codes-Keeps recovery_code_count) (λ codes. kept_pure _)
