-- ===== src/Storage/Mfa.antt =====
-- internal/storage/mfa.go over internal/storage/sqlcgen/mfa.sql.go and the TOTP queries of
-- users.sql.go.
pub mod OneTime
pub mod Replacement
use go_vault.Prelude.{
  ℕ, zero, suc, Bool, true, false, not, ◌&&◌, List, [], ◌∷◌, ◌++◌, Option, none, some,
  if◌then◌else◌, Bytes, ◌==◌, ltb, leb, bytes_eq, find, filter, update_where, length,
}
use go_vault.Errors.{Error, not_found, unique_violation, foreign_key_violation, Result, ok, err}
use go_vault.Storage.Db.{
  User, RecoveryCode, MfaChallenge, Db, Query, ◌>>=◌, ◌>>◌, pure, fail, gets, one, modify, guard,
  statement, or_not_found, fresh_id, user_exists,
}
use go_vault.Storage.Users.{user_by_id}

-- The queries.

unfoldable pub enable_user_totp : ℕ → Bytes → Query ℕ
unfolding statement
enable_user_totp id protected_secret = do
  statement
  n ← gets (λ db. length (filter (λ u. u.id == id) db.users))
  modify (λ db. record db {
    users =
        update_where (λ u. u.id == id)
          (λ u. record u { totp_enabled = true; protected_totp_secret = some protected_secret })
          db.users;
  })
  pure n

unfoldable pub disable_user_totp : ℕ → Query ℕ
unfolding statement
disable_user_totp id = do
  statement
  n ← gets (λ db. length (filter (λ u. u.id == id) db.users))
  modify (λ db. record db {
    users =
        update_where (λ u. u.id == id)
          (λ u. record u { totp_enabled = false; protected_totp_secret = none }) db.users;
  })
  pure n

unfoldable pub get_user_totp_status : ℕ → Query (Bool × Option Bytes)
unfolding statement
get_user_totp_status id = do
  statement
  row ← gets (λ db. user_by_id id db.users)
  u ← one row
  pure (u.totp_enabled, u.protected_totp_secret)

unfoldable pub delete_recovery_codes_for_user : ℕ → Query (Unit {0})
unfolding statement
delete_recovery_codes_for_user user_id = do
  statement
  modify (λ db. record db {
    recovery_codes = filter (λ c. not (c.user_id == user_id)) db.recovery_codes;
  })

unfoldable pub insert_recovery_code : ℕ → Bytes → Query (Unit {0})
unfolding statement
insert_recovery_code user_id code_hash = do
  statement
  users ← gets (λ db. db.users)
  guard (user_exists users user_id) foreign_key_violation
  id ← fresh_id
  modify (λ db. record db { recovery_codes = db.recovery_codes ++ new_row id ∷ [] })
  where
    new_row : ℕ → RecoveryCode
    new_row id = record { id = id; user_id = user_id; code_hash = code_hash; used_at = none }

abbrev pub is_unused : RecoveryCode → Bool
is_unused c = elim c.used_at [ none ↦ true | some t ↦ false ]

unfoldable pub list_unused_recovery_codes : ℕ → Query (List RecoveryCode)
unfolding statement
list_unused_recovery_codes user_id = do
  statement
  gets (λ db. filter (λ c. c.user_id == user_id && is_unused c) db.recovery_codes)

abbrev pub is_unused_code : ℕ → RecoveryCode → Bool
is_unused_code id c = c.id == id && is_unused c

unfoldable pub mark_recovery_code_used : ℕ → Query ℕ
unfolding statement
mark_recovery_code_used id = do
  statement
  now ← gets (λ db. db.now)
  n ← gets (λ db. length (filter (is_unused_code id) db.recovery_codes))
  modify (λ db. record db {
    recovery_codes =
        update_where (is_unused_code id) (λ c. record c { used_at = some now }) db.recovery_codes;
  })
  pure n

abbrev pub challenge_by_hash : Bytes → List MfaChallenge → Option MfaChallenge
challenge_by_hash hash = find (λ c. bytes_eq c.token_hash hash)

abbrev pub no_challenge : Option MfaChallenge → Bool
no_challenge none = true
no_challenge (some c) = false

unfoldable pub create_mfa_challenge : ℕ → Bytes → ℕ → Query (Unit {0})
unfolding statement
create_mfa_challenge user_id token_hash expires_at = do
  statement
  users ← gets (λ db. db.users)
  guard (user_exists users user_id) foreign_key_violation
  row ← gets (λ db. challenge_by_hash token_hash db.challenges)
  guard (no_challenge row) unique_violation
  id ← fresh_id
  modify (λ db. record db { challenges = db.challenges ++ new_row id ∷ [] })
  where
    new_row : ℕ → MfaChallenge
    new_row id = record {
      id = id;
      user_id = user_id;
      token_hash = token_hash;
      expires_at = expires_at;
    }

abbrev pub is_live : Bytes → ℕ → MfaChallenge → Bool
is_live hash now c = bytes_eq c.token_hash hash && ltb now c.expires_at

-- DELETE … RETURNING user_id
unfoldable pub consume_mfa_challenge : Bytes → Query ℕ
unfolding statement
consume_mfa_challenge hash = do
  statement
  now ← gets (λ db. db.now)
  row ← gets (λ db. find (is_live hash now) db.challenges)
  modify (λ db. record db { challenges = filter (λ c. not (is_live hash now c)) db.challenges })
  c ← one row
  pure c.user_id

unfoldable pub cleanup_expired_mfa_challenges : Query (Unit {0})
unfolding statement
cleanup_expired_mfa_challenges = do
  statement
  now ← gets (λ db. db.now)
  modify (λ db. record db { challenges = filter (λ c. not (leb c.expires_at now)) db.challenges })

-- The repository.

unfoldable pub enable_totp : ℕ → Bytes → Query (Unit {0})
unfolding enable_user_totp
enable_totp user_id protected_secret = do
  n ← enable_user_totp user_id protected_secret
  if n == 0 then fail not_found else pure tt

unfoldable pub disable_totp : ℕ → Query (Unit {0})
unfolding disable_user_totp delete_recovery_codes_for_user
disable_totp user_id = do
  n ← disable_user_totp user_id
  if n == 0 then fail not_found else delete_recovery_codes_for_user user_id

unfoldable pub get_totp_status : ℕ → Query (Bool × Option Bytes)
unfolding get_user_totp_status
get_totp_status user_id = or_not_found (get_user_totp_status user_id)

-- One transaction: Begin, the body, Commit. A failure rolls the tables back; the deferred Rollback
-- after a Commit does nothing.
unfoldable pub in_tx : Query (Unit {0}) → Query (Unit {0})
unfolding statement
in_tx body db =
    let (r, after) = (statement >> body >> statement) db in
    elim r [
      | ok a ↦ (ok a, after)
      | err e ↦ (err e, record db { queries = after.queries; next_id = after.next_id })
    ]

unfoldable pub insert_recovery_codes : ℕ → List Bytes → Query (Unit {0})
unfolding insert_recovery_code
insert_recovery_codes user_id [] = pure tt
insert_recovery_codes user_id (h ∷ hashes) =
    insert_recovery_code user_id h >> insert_recovery_codes user_id hashes

unfoldable pub replace_recovery_codes : ℕ → List Bytes → Query (Unit {0})
unfolding in_tx delete_recovery_codes_for_user insert_recovery_codes
replace_recovery_codes user_id hashes =
    in_tx (delete_recovery_codes_for_user user_id >> insert_recovery_codes user_id hashes)

-- The loop over the unused codes stops at the first match.
unfoldable pub mark_found : Option RecoveryCode → Query Bool
unfolding mark_recovery_code_used
mark_found none = pure false
mark_found (some c) = do n ← mark_recovery_code_used c.id; pure (ltb 0 n)

unfoldable pub consume_recovery_code : ℕ → (Bytes → Bool) → Query Bool
unfolding list_unused_recovery_codes mark_found
consume_recovery_code user_id matches = do
  codes ← list_unused_recovery_codes user_id
  mark_found (find (λ c. matches c.code_hash) codes)

unfoldable pub create_challenge : ℕ → Bytes → ℕ → Query (Unit {0})
unfolding create_mfa_challenge
create_challenge user_id token_hash expires_at = create_mfa_challenge user_id token_hash expires_at

unfoldable pub consume_challenge : Bytes → Query ℕ
unfolding consume_mfa_challenge
consume_challenge hash = or_not_found (consume_mfa_challenge hash)

unfoldable pub cleanup_expired_challenges : Query (Unit {0})
unfolding cleanup_expired_mfa_challenges
cleanup_expired_challenges = cleanup_expired_mfa_challenges
