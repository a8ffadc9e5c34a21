-- ===== src/Tests/Storage.antt =====
-- Witnesses for go_vault.Storage.
use go_vault.Prelude.{
  ◌+◌, ◌≡◌, ◌⊎◌, refl, Bool, true, false, [], ◌∷◌, none, some, arith, Bytes, find, bytes_eq, codes,
}
use go_vault.Errors.{Error, ok, err, conflict, not_found}
use go_vault.Storage.Items.{update, revise, owned_by}
use go_vault.Storage.Items.Revisions.{update_twice}
use go_vault.Storage.Mfa.{
  replace_recovery_codes, consume_challenge, consume_recovery_code, mark_found,
}
use go_vault.Storage.Mfa.Replacement.{unused_hashes, replace_recovery_codes_atomic}
use go_vault.Storage.Mfa.OneTime.{
  usable, consume_challenge_once, consume_recovery_code_counts, mark_found_race,
}
use go_vault.Tests.Data.{db, item, code}

update_twice_example :
    let (first, db') = update 21 1 1 (3 ∷ []) [] db in
    let row = revise 1000 (3 ∷ []) none (item 21 1) in
    (first ≡ ok row)
    × (find (owned_by 21 1) db'.items ≡ some row)
    × ((update 21 1 1 (4 ∷ []) (codes "note") db').0 ≡ err conflict)
unfolding bytes_eq
update_twice_example =
    update_twice db 21 1 (3 ∷ []) [] (4 ∷ []) (codes "note") (item 21 1) (λ n. refl)
      (refl, (refl, tt)) refl (omega arith) refl

consume_challenge_once_example :
    (consume_challenge (5 ∷ []) (record (consume_challenge (5 ∷ []) db).1 { now = 1001 })).0
    ≡ err not_found
unfolding consume_challenge bytes_eq
consume_challenge_once_example =
    consume_challenge_once (5 ∷ []) db 2 1001 (λ n. refl) refl (omega arith)

abbrev is_eight : Bytes → Bool
unfolding bytes_eq
is_eight h = bytes_eq h (8 ∷ [])

consume_recovery_code_counts_example :
    let (r, db') = consume_recovery_code 2 is_eight db in
    ((r ≡ ok true)
      × (usable 2 is_eight db'.recovery_codes + 1 ≡ usable 2 is_eight db.recovery_codes))
    ⊎ ((r ≡ ok false)
        × (usable 2 is_eight db.recovery_codes ≡ 0)
        × (db'.recovery_codes ≡ db.recovery_codes))
consume_recovery_code_counts_example =
    consume_recovery_code_counts 2 is_eight db (λ n. refl) (refl, tt)

mark_found_race_example : (mark_found (some code) (mark_found (some code) db).1).0 ≡ ok false
mark_found_race_example = mark_found_race code db (λ n. refl)

replace_recovery_codes_atomic_example :
    let (r, db') = replace_recovery_codes 2 ((1 ∷ []) ∷ (2 ∷ []) ∷ []) db in
    ((r ≡ ok tt) × (unused_hashes 2 db'.recovery_codes ≡ (1 ∷ []) ∷ (2 ∷ []) ∷ []))
    ⊎ ((e : Error) × (r ≡ err e) × (db'.recovery_codes ≡ db.recovery_codes))
replace_recovery_codes_atomic_example =
    replace_recovery_codes_atomic 2 ((1 ∷ []) ∷ (2 ∷ []) ∷ []) db
