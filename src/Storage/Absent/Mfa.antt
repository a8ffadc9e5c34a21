-- ===== src/Storage/Absent/Mfa.antt =====
-- The statements on recovery codes and challenges, and the transaction, where a user is absent.
use go_vault.Prelude.{ℕ, List, [], ◌∷◌, arith, Bytes}
use go_vault.Errors.{Result, ok, err}
use go_vault.Storage.Db.{Db, Query, ◌>>◌, statement}
use go_vault.Storage.Mfa
use go_vault.Storage.Keeps.{Keeps, kept_then, kept_pure}
use go_vault.Storage.Absent.{IsAbsent}
use go_vault.Storage.Absent.Users.{statement-IsAbsent}

module _ (id : ℕ) where
  pub delete_codes-IsAbsent : (k : ℕ) → Keeps (IsAbsent id) (Mfa.delete_recovery_codes_for_user k)
  unfolding Mfa.delete_recovery_codes_for_user
  delete_codes-IsAbsent k = record { at = λ db h. ground (arith, h.given, h.absent) }

  pub insert_code-IsAbsent :
      (k : ℕ) (hash : Bytes) → Keeps (IsAbsent id) (Mfa.insert_recovery_code k hash)
  unfolding Mfa.insert_recovery_code
  insert_code-IsAbsent k hash = record { at = λ db h. ground (arith, h.given, h.absent) }

  pub insert_codes-IsAbsent :
      (k : ℕ) (hashes : List Bytes) → Keeps (IsAbsent id) (Mfa.insert_recovery_codes k hashes)
  unfolding Mfa.insert_recovery_codes
  insert_codes-IsAbsent k [] = kept_pure tt
  insert_codes-IsAbsent k (hash ∷ hashes) =
      kept_then (insert_code-IsAbsent k hash) (insert_codes-IsAbsent k hashes)

  pub in_tx-IsAbsent :
      (body : Query (Unit {0})) → Keeps (IsAbsent id) body → Keeps (IsAbsent id) (Mfa.in_tx body)
  unfolding Mfa.in_tx
  in_tx-IsAbsent body k = record {
    at = λ db h.
        go db h ((statement >> body >> statement) db)
          ((kept_then (kept_then (statement-IsAbsent id) k) (statement-IsAbsent id)).at db h);
  }
    where
      go :
          (db : Db)
          → IsAbsent id db
          → (out : Result (Unit {0}) × Db) → IsAbsent id out.1
          → IsAbsent id
              (elim out.0 as (λ x. Result (Unit {0}) × Db) [
                | ok a ↦ (ok a, out.1)
                | err e ↦ (err e, record db { queries = out.1.queries; next_id = out.1.next_id })
              ]).1
      go db h (ok a, after) t = t
      go db h (err e, after) t = record { given = t.given; absent = h.absent }

  pub replace_codes-IsAbsent :
      (k : ℕ) (hashes : List Bytes) → Keeps (IsAbsent id) (Mfa.replace_recovery_codes k hashes)
  unfolding Mfa.replace_recovery_codes
  replace_codes-IsAbsent k hashes =
      in_tx-IsAbsent (Mfa.delete_recovery_codes_for_user k >> Mfa.insert_recovery_codes k hashes)
        (kept_then (delete_codes-IsAbsent k) (insert_codes-IsAbsent k hashes))

  pub mark_code-IsAbsent : (k : ℕ) → Keeps (IsAbsent id) (Mfa.mark_recovery_code_used k)
  unfolding Mfa.mark_recovery_code_used
  mark_code-IsAbsent k = record { at = λ db h. ground (arith, h.given, h.absent) }

  pub create_challenge-IsAbsent :
      (k : ℕ) (hash : Bytes) (at : ℕ) → Keeps (IsAbsent id) (Mfa.create_mfa_challenge k hash at)
  unfolding Mfa.create_mfa_challenge
  create_challenge-IsAbsent k hash at = record { at = λ db h. ground (arith, h.given, h.absent) }

  pub consume_challenge-IsAbsent :
      (hash : Bytes) → Keeps (IsAbsent id) (Mfa.consume_mfa_challenge hash)
  unfolding Mfa.consume_mfa_challenge
  consume_challenge-IsAbsent hash = record { at = λ db h. ground (arith, h.given, h.absent) }
