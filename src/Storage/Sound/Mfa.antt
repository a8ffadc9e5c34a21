-- ===== src/Storage/Sound/Mfa.antt =====
-- The statements of internal/storage/sqlcgen/mfa.sql.go against the constraints of db/schema.sql.
use go_vault.Prelude.{
  ℕ, suc, ◌≡◌, refl, Bool, true, false, not, [], ◌∷◌, ◌++◌, Option, none, some, arith, Bytes, ◌==◌,
  filter, update_where,
}
use go_vault.Storage.Db.{User, RecoveryCode, MfaChallenge, Db, user_exists}
use go_vault.Storage.Mfa.{challenge_by_hash}
use go_vault.Storage.Mfa
use go_vault.Storage.Keeps.{Keeps}
use go_vault.Storage.Rows.{Distinct-append, Distinct-filter, swap_bytes}
use go_vault.Storage.Sound.{table_append, table_filter, table_update, same_token, IsSound}
use go_vault.Storage.Sound.Changes.{with_codes, with_challenges}
use go_vault.Storage.Sound.Users.{updates_user}
use go_vault.Storage.Sound.Statements.{same}

pub enable_totp-IsSound : (id : ℕ) (secret : Bytes) → Keeps IsSound (Mfa.enable_user_totp id secret)
unfolding Mfa.enable_user_totp
enable_totp-IsSound id secret = record {
  at = λ db s.
      let f : User → User =
        λ u. record u { totp_enabled = true; protected_totp_secret = some secret } in
      ground (
        arith,
        same db (suc db.queries) s,
        updates_user db (suc db.queries) id f (λ u. refl) (λ u. refl) s,
      );
}

pub disable_totp-IsSound : (id : ℕ) → Keeps IsSound (Mfa.disable_user_totp id)
unfolding Mfa.disable_user_totp
disable_totp-IsSound id = record {
  at = λ db s.
      let f : User → User = λ u. record u { totp_enabled = false; protected_totp_secret = none } in
      ground (
        arith,
        same db (suc db.queries) s,
        updates_user db (suc db.queries) id f (λ u. refl) (λ u. refl) s,
      );
}

filters_codes :
    (db : Db) (queries : ℕ) (p : RecoveryCode → Bool)
    → IsSound db
    → IsSound (record db { recovery_codes = filter p db.recovery_codes; queries = queries })
filters_codes db queries p s =
    with_codes db queries db.next_id (omega arith) s (filter p db.recovery_codes)
      (table_filter db.users p (λ x e h. h) s.codes)

adds_code :
    (db : Db) (queries : ℕ) (x : RecoveryCode)
    → x.id ≡ db.next_id
    → user_exists db.users x.user_id ≡ true
    → IsSound db
    → IsSound (record db {
      recovery_codes = db.recovery_codes ++ x ∷ [];
      queries = queries;
      next_id = suc db.next_id;
    })
adds_code db queries x e h s =
    with_codes db queries (suc db.next_id) (omega arith) s (db.recovery_codes ++ x ∷ [])
      (table_append x e h s.codes)

marks_code :
    (db : Db) (queries : ℕ) (hit : RecoveryCode → Bool) (used : Option ℕ)
    → IsSound db
    → IsSound (record db {
      recovery_codes = update_where hit (λ c. record c { used_at = used }) db.recovery_codes;
      queries = queries;
    })
marks_code db queries hit used s =
    with_codes db queries db.next_id (omega arith) s
      (update_where hit (λ c. record c { used_at = used }) db.recovery_codes)
      (table_update hit (λ c. record c { used_at = used }) (λ x. refl) (λ x. refl) s.codes)

pub delete_codes-IsSound : (id : ℕ) → Keeps IsSound (Mfa.delete_recovery_codes_for_user id)
unfolding Mfa.delete_recovery_codes_for_user
delete_codes-IsSound id = record {
  at = λ db s. ground (
    arith,
    same db (suc db.queries) s,
    filters_codes db (suc db.queries) (λ x. not (x.user_id == id)) s,
  );
}

pub insert_code-IsSound : (id : ℕ) (hash : Bytes) → Keeps IsSound (Mfa.insert_recovery_code id hash)
unfolding Mfa.insert_recovery_code
insert_code-IsSound id hash = record {
  at = λ db s.
      let row : RecoveryCode = record {
        id = db.next_id;
        user_id = id;
        code_hash = hash;
        used_at = none;
      } in
      ground (arith, same db (suc db.queries) s, adds_code db (suc db.queries) row refl, s);
}

pub mark_code-IsSound : (id : ℕ) → Keeps IsSound (Mfa.mark_recovery_code_used id)
unfolding Mfa.mark_recovery_code_used
mark_code-IsSound id = record {
  at = λ db s. ground (
    arith,
    same db (suc db.queries) s,
    marks_code db (suc db.queries) (Mfa.is_unused_code id) (some db.now) s,
  );
}

filters_challenges :
    (db : Db) (queries : ℕ) (p : MfaChallenge → Bool)
    → IsSound db
    → IsSound (record db { challenges = filter p db.challenges; queries = queries })
filters_challenges db queries p s =
    with_challenges db queries db.next_id (omega arith) s (filter p db.challenges)
      (table_filter db.users p (λ x e h. h) s.challenges)
      (Distinct-filter same_token (λ u v h. swap_bytes _ _ h) p db.challenges s.tokens)

adds_challenge :
    (db : Db) (queries : ℕ) (x : MfaChallenge)
    → x.id ≡ db.next_id
    → user_exists db.users x.user_id ≡ true
    → challenge_by_hash x.token_hash db.challenges ≡ none
    → IsSound db
    → IsSound (record db {
      challenges = db.challenges ++ x ∷ [];
      queries = queries;
      next_id = suc db.next_id;
    })
adds_challenge db queries x e h free s =
    with_challenges db queries (suc db.next_id) (omega arith) s (db.challenges ++ x ∷ [])
      (table_append x e h s.challenges)
      (Distinct-append same_token (λ u v h. swap_bytes _ _ h) db.challenges x free s.tokens)

pub create_challenge-IsSound :
    (id : ℕ) (hash : Bytes) (at : ℕ) → Keeps IsSound (Mfa.create_mfa_challenge id hash at)
unfolding Mfa.create_mfa_challenge
create_challenge-IsSound id hash at = record {
  at = λ db s.
      let row : MfaChallenge = record {
        id = db.next_id;
        user_id = id;
        token_hash = hash;
        expires_at = at;
      } in
      ground (arith, same db (suc db.queries) s, adds_challenge db (suc db.queries) row refl, s);
}

pub consume_challenge-IsSound : (hash : Bytes) → Keeps IsSound (Mfa.consume_mfa_challenge hash)
unfolding Mfa.consume_mfa_challenge
consume_challenge-IsSound hash = record {
  at = λ db s. ground (
    arith,
    same db (suc db.queries) s,
    filters_challenges db (suc db.queries) (λ c. not (Mfa.is_live hash db.now c)) s,
  );
}
