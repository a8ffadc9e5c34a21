-- ===== src/Storage/Mfa/Replacement.antt =====
-- The transaction of internal/storage/mfa.go ReplaceRecoveryCodes.
use go_vault.Prelude.{
  ℕ, suc, ◌≡◌, refl, ◌⊎◌, inl, inr, true, not, List, [], ◌∷◌, ◌++◌, none, arith, Bytes, ◌==◌,
  filter, if◌then◌else◌, ◌&&◌, ==_refl,
}
use mathlib.Core.List.{append_assoc, append-nil}
use go_vault.Errors.{Error, ok, err, Result-cases}
use go_vault.Storage.Db.{RecoveryCode, Db}
use go_vault.Storage.Mfa.{
  is_unused, insert_recovery_code, insert_recovery_codes, replace_recovery_codes,
}

-- The hashes of a user's unused codes, in the order of the table.
abbrev pub unused_hashes : ℕ → List RecoveryCode → List Bytes
unused_hashes user_id [] = []
unused_hashes user_id (c ∷ rows) =
    if c.user_id == user_id && is_unused c
    then c.code_hash ∷ unused_hashes user_id rows
    else unused_hashes user_id rows

module _ (user_id : ℕ) where
  unused_hashes-append :
      (rows : List RecoveryCode) (c : RecoveryCode)
      → (c.user_id == user_id) ≡ true
      → is_unused c ≡ true
      → unused_hashes user_id (rows ++ c ∷ []) ≡ unused_hashes user_id rows ++ c.code_hash ∷ []
  unused_hashes-append [] c mine fresh = ground arith
  unused_hashes-append (d ∷ rows) c mine fresh =
      ground (arith, unused_hashes-append rows c mine fresh)

  unused_hashes-removed :
      (rows : List RecoveryCode)
      → unused_hashes user_id (filter (λ c. not (c.user_id == user_id)) rows) ≡ []
  unused_hashes-removed [] = refl
  unused_hashes-removed (c ∷ rows) = ground (arith, unused_hashes-removed rows)

  -- One insertion that succeeds.
  insert_one :
      (hash : Bytes) (db : Db)
      → (insert_recovery_code user_id hash db).0 ≡ ok tt
      → unused_hashes user_id (insert_recovery_code user_id hash db).1.recovery_codes
        ≡ unused_hashes user_id db.recovery_codes ++ hash ∷ []
  unfolding insert_recovery_code
  insert_one hash db done =
      ground (arith, unused_hashes-append db.recovery_codes row (==_refl user_id) refl)
    where
      row : RecoveryCode
      row = record { id = db.next_id; user_id = user_id; code_hash = hash; used_at = none }

  insert_all :
      (hashes : List Bytes) (db : Db)
      → (insert_recovery_codes user_id hashes db).0 ≡ ok tt
      → unused_hashes user_id (insert_recovery_codes user_id hashes db).1.recovery_codes
        ≡ unused_hashes user_id db.recovery_codes ++ hashes
  unfolding insert_recovery_codes
  insert_all [] db done = ground (arith, append-nil (unused_hashes user_id db.recovery_codes))
  insert_all (h ∷ hashes) db done =
      let db' = (insert_recovery_code user_id h db).1 in
      ground (
        arith,
        insert_one h db,
        insert_all hashes db',
        append_assoc (unused_hashes user_id db.recovery_codes) (h ∷ []) hashes,
      )

abbrev cleared : ℕ → Db → Db
cleared user_id db = record db {
  recovery_codes = filter (λ c. not (c.user_id == user_id)) db.recovery_codes;
  queries = suc (suc db.queries);
}

module _ (user_id : ℕ) (hashes : List Bytes) (db : Db) where
  replaced :
      (u : Unit {0})
      → (replace_recovery_codes user_id hashes db).0 ≡ ok u
      → unused_hashes user_id (replace_recovery_codes user_id hashes db).1.recovery_codes ≡ hashes
  unfolding replace_recovery_codes
  replaced u done = ground (
    arith,
    done,
    insert_all user_id hashes (cleared user_id db),
    unused_hashes-removed user_id db.recovery_codes,
  )

  rolled_back :
      (e : Error)
      → (replace_recovery_codes user_id hashes db).0 ≡ err e
      → (replace_recovery_codes user_id hashes db).1.recovery_codes ≡ db.recovery_codes
  unfolding replace_recovery_codes
  rolled_back e failed = ground (arith, failed)

-- ReplaceRecoveryCodes is all or nothing: either it succeeds and the user's unused codes are exactly
-- the new ones, or it fails and no code has changed, wherever in the transaction the failure was.
pub replace_recovery_codes_atomic :
    (user_id : ℕ) (hashes : List Bytes) (db : Db)
    → let (r, db') = replace_recovery_codes user_id hashes db in
      ((r ≡ ok tt) × (unused_hashes user_id db'.recovery_codes ≡ hashes))
      ⊎ ((e : Error) × (r ≡ err e) × (db'.recovery_codes ≡ db.recovery_codes))
replace_recovery_codes_atomic user_id hashes db =
    elim (Result-cases (replace_recovery_codes user_id hashes db).0) [
      | inl (u, done) ↦ inl (done, replaced user_id hashes db u done)
      | inr (e, failed) ↦ inr (e, failed, rolled_back user_id hashes db e failed)
    ]
