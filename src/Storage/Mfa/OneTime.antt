-- ===== src/Storage/Mfa/OneTime.antt =====
-- Challenges and recovery codes of internal/storage/mfa.go are good for one use.
use go_vault.Prelude.{
  ℕ, suc, ◌+◌, ◌≤◌, ◌<◌, ◌≡◌, refl, ap, Bool, true, false, not, ◌&&◌, List, [], ◌∷◌, none, some,
  arith, Bytes, ◌==◌, find, filter, update_where, length, Distinct, inl, inr, ◌⊎◌, Bool-cases,
  Option-cases,
}
use go_vault.Errors.{not_found, ok, err}
use go_vault.Storage.Db.{RecoveryCode, MfaChallenge, Db}
use go_vault.Storage.Mfa.{
  is_live, consume_challenge, is_unused, is_unused_code, mark_found, consume_recovery_code,
}

abbrev pub IsUp : Db → Type 0
IsUp db = (n : ℕ) → db.outage n ≡ false

none_live :
    (hash : Bytes) (now later : ℕ) (rows : List MfaChallenge)
    → now ≤ later
    → find (is_live hash later) (filter (λ c. not (is_live hash now c)) rows) ≡ none
none_live hash now later [] h = refl
none_live hash now later (c ∷ rows) h = ground (arith, none_live hash now later rows h)

-- A challenge token that was taken is refused from then on, at every later time. Every statement
-- reaches the database.
pub consume_challenge_once :
    (hash : Bytes) (db : Db) (user_id later : ℕ)
    → IsUp db
    → (consume_challenge hash db).0 ≡ ok user_id
    → db.now ≤ later
    → (consume_challenge hash (record (consume_challenge hash db).1 { now = later })).0
      ≡ err not_found
unfolding consume_challenge
consume_challenge_once hash db user_id later up h after =
    ground
      (arith, up db.queries, up (suc db.queries), none_live hash db.now later db.challenges after)

abbrev pub same_id : RecoveryCode → RecoveryCode → Bool
same_id c d = d.id == c.id

-- The unused codes of a user that a code given at login matches.
abbrev pub is_usable : ℕ → (Bytes → Bool) → RecoveryCode → Bool
is_usable user_id matches c = (c.user_id == user_id && is_unused c) && matches c.code_hash

abbrev pub usable : ℕ → (Bytes → Bool) → List RecoveryCode → ℕ
usable user_id matches rows = length (filter (is_usable user_id matches) rows)

abbrev use_at : ℕ → RecoveryCode → RecoveryCode
use_at now c = record c { used_at = some now }

abbrev candidates : ℕ → List RecoveryCode → List RecoveryCode
candidates user_id = filter (λ c. c.user_id == user_id && is_unused c)

mark_absent :
    (id now : ℕ) (rows : List RecoveryCode)
    → find (λ c. c.id == id) rows ≡ none
    → update_where (is_unused_code id) (use_at now) rows ≡ rows
mark_absent id now [] h = refl
mark_absent id now (c ∷ rows) h = ground (arith, mark_absent id now rows)

module _ (user_id : ℕ) (matches : Bytes → Bool) (now : ℕ) where
  usable-mark :
      (rows : List RecoveryCode) (c : RecoveryCode)
      → Distinct same_id rows
      → find (λ d. matches d.code_hash) (candidates user_id rows) ≡ some c
      → usable user_id matches (update_where (is_unused_code c.id) (use_at now) rows) + 1
        ≡ usable user_id matches rows
  usable-mark [] c d h = cc
  usable-mark (x ∷ rows) c d h = elim (Bool-cases (is_usable user_id matches x)) [
    | inl hit ↦
        let found : x ≡ c = ground arith in
        ground (arith, found, ap (usable user_id matches) (mark_absent x.id now rows d.0))
    | inr miss ↦ ground (arith, usable-mark rows c d.1)
  ]

  none-usable :
      (rows : List RecoveryCode)
      → find (λ d. matches d.code_hash) (candidates user_id rows) ≡ none
      → usable user_id matches rows ≡ 0
  none-usable [] h = refl
  none-usable (x ∷ rows) h = ground (arith, none-usable rows)

  counted :
      (rows : List RecoveryCode) (c : RecoveryCode)
      → find (λ d. matches d.code_hash) (candidates user_id rows) ≡ some c
      → 0 < length (filter (is_unused_code c.id) rows)
  counted [] c h = cc
  counted (x ∷ rows) c h = ground (arith, counted rows c)

-- A code given at login is accepted exactly when an unused code of the user matches it, and then
-- there is one such code less; otherwise no code changes. The codes have distinct ids. Every
-- statement reaches the database.
pub consume_recovery_code_counts :
    (user_id : ℕ) (matches : Bytes → Bool) (db : Db)
    → IsUp db
    → Distinct same_id db.recovery_codes
    → let (r, db') = consume_recovery_code user_id matches db in
      ((r ≡ ok true)
        × (usable user_id matches db'.recovery_codes + 1
            ≡ usable user_id matches db.recovery_codes))
      ⊎ ((r ≡ ok false)
          × (usable user_id matches db.recovery_codes ≡ 0)
          × (db'.recovery_codes ≡ db.recovery_codes))
unfolding consume_recovery_code
consume_recovery_code_counts user_id matches db up d =
    elim (Option-cases (find (λ c. matches c.code_hash) (candidates user_id db.recovery_codes))) [
      | inl missing ↦ inr (
        ground (arith, up db.queries),
        none-usable user_id matches db.now db.recovery_codes missing,
        ground (arith, up db.queries),
      )
      | inr (c, found) ↦ inl (
        ground (
          arith,
          up db.queries,
          up (suc db.queries),
          counted user_id matches db.now db.recovery_codes c found,
        ),
        ground (
          arith,
          up db.queries,
          up (suc db.queries),
          usable-mark user_id matches db.now db.recovery_codes c d found,
        ),
      )
    ]

none_unused :
    (id now : ℕ) (rows : List RecoveryCode)
    → filter (is_unused_code id) (update_where (is_unused_code id) (use_at now) rows) ≡ []
none_unused id now [] = refl
none_unused id now (c ∷ rows) = ground (arith, none_unused id now rows)

-- Of two logins that both read a code as unused, the one that marks it later is refused. Every
-- statement reaches the database.
pub mark_found_race :
    (c : RecoveryCode) (db : Db)
    → IsUp db
    → (mark_found (some c) (mark_found (some c) db).1).0 ≡ ok false
unfolding mark_found
mark_found_race c db up = ground (
  arith,
  up db.queries,
  up (suc db.queries),
  ap (length {A = RecoveryCode}) (none_unused c.id db.now db.recovery_codes),
)
