-- ===== src/Storage/Sound/Transaction.antt =====
-- The transaction of MFARepo.ReplaceRecoveryCodes against the constraints of db/schema.sql.
use go_vault.Prelude.{ℕ, suc, ◌≤◌, List, [], ◌∷◌, arith, Bytes}
use go_vault.Errors.{Result, ok, err}
use go_vault.Storage.Db.{Db, Query, ◌>>◌, statement}
use go_vault.Storage.Mfa.{challenge_by_hash}
use go_vault.Storage.Mfa
use go_vault.Storage.Keeps.{Keeps, kept_then, kept_pure}
use go_vault.Storage.Sound.{IsSound}
use go_vault.Storage.Sound.Statements.{moves, same}
use go_vault.Storage.Sound.Mfa.{delete_codes-IsSound, insert_code-IsSound}

-- Within a transaction, more ids are given out and none returns.
abbrev SoundAfter : ℕ → Db → Type 0
SoundAfter n db = IsSound db × (n ≤ db.next_id)

statement-SoundAfter : (n : ℕ) → Keeps (SoundAfter n) statement
unfolding statement
statement-SoundAfter n = record { at = λ db (s, h). (same db (suc db.queries) s, h) }

delete_codes-SoundAfter : (n id : ℕ) → Keeps (SoundAfter n) (Mfa.delete_recovery_codes_for_user id)
unfolding Mfa.delete_recovery_codes_for_user
delete_codes-SoundAfter n id = record {
  at = λ db (s, h). ((delete_codes-IsSound id).at db s, ground arith);
}

insert_code-SoundAfter :
    (n id : ℕ) (hash : Bytes) → Keeps (SoundAfter n) (Mfa.insert_recovery_code id hash)
unfolding Mfa.insert_recovery_code
insert_code-SoundAfter n id hash = record {
  at = λ db (s, h). ((insert_code-IsSound id hash).at db s, ground arith);
}

insert_codes-SoundAfter :
    (n id : ℕ) (hashes : List Bytes) → Keeps (SoundAfter n) (Mfa.insert_recovery_codes id hashes)
unfolding Mfa.insert_recovery_codes
insert_codes-SoundAfter n id [] = kept_pure tt
insert_codes-SoundAfter n id (hash ∷ hashes) =
    kept_then (insert_code-SoundAfter n id hash) (insert_codes-SoundAfter n id hashes)

in_tx-IsSound :
    (body : Query (Unit {0}))
    → ((n : ℕ) → Keeps (SoundAfter n) body)
    → Keeps IsSound (Mfa.in_tx body)
unfolding Mfa.in_tx
in_tx-IsSound body k = record {
  at = λ db s. go db s ((statement >> body >> statement) db) (
      (kept_then (kept_then (statement-SoundAfter db.next_id) (k db.next_id))
          (statement-SoundAfter db.next_id)).at
        db (s, omega arith));
}
  where
    go :
        (db : Db)
        → IsSound db
        → (out : Result (Unit {0}) × Db) → SoundAfter db.next_id out.1
        → IsSound
            (elim out.0 as (λ x. Result (Unit {0}) × Db) [
              | ok a ↦ (ok a, out.1)
              | err e ↦ (err e, record db { queries = out.1.queries; next_id = out.1.next_id })
            ]).1
    go db s (ok a, after) (t, h) = t
    go db s (err e, after) (t, h) = moves db after.queries after.next_id h s

pub replace_codes-IsSound :
    (id : ℕ) (hashes : List Bytes) → Keeps IsSound (Mfa.replace_recovery_codes id hashes)
unfolding Mfa.replace_recovery_codes
replace_codes-IsSound id hashes =
    in_tx-IsSound (Mfa.delete_recovery_codes_for_user id >> Mfa.insert_recovery_codes id hashes)
      (λ n. kept_then (delete_codes-SoundAfter n id) (insert_codes-SoundAfter n id hashes))
