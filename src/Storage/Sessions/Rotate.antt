-- ===== src/Storage/Sessions/Rotate.antt =====
-- Where the rows of a rotated session are found, internal/storage/sessions.go RotateTokens.
use go_vault.Prelude.{
  ℕ, ◌≡◌, false, not, List, [], ◌∷◌, none, some, arith, Bytes, ◌==◌, bytes_eq, bytes_eq_iff,
  bytes_eq_refl, find, filter, update_where, Distinct, inl, inr, Bool-cases, ==_iff,
}
use go_vault.Storage.Db.{Session}
use go_vault.Storage.Sessions.{by_id}
use go_vault.Storage.Sessions.Unique.{same_id, holds, find-update_column}

-- The row that a unique hash finds is the one that its id finds.
pub by_id-find :
    (column : Session → Bytes) (b : Bytes) (rows : List Session) (s : Session)
    → Distinct same_id rows
    → find (holds column b) rows ≡ some s
    → by_id s.id rows ≡ some s
by_id-find column b [] s d h = cc
by_id-find column b (t ∷ rows) s d h = elim (Bool-cases (bytes_eq (column t) b)) [
  | inl hit ↦ ground (arith)
  | inr miss ↦
      let rest : by_id s.id rows ≡ some s = by_id-find column b rows s d.1 (ground arith) in
      elim (Bool-cases (t.id == s.id)) [
        | inl same ↦ cc (rest, rw ((==_iff t.id s.id).0 same) at d.0)
        | inr other ↦ rw other rest
      ]
]

module _ (column : Session → Bytes) (f : Session → Session) (a : Bytes)
    (sets : (s : Session) → column (f s) ≡ a) where
  -- The old hash of the rotated row finds nothing.
  pub find_old :
      (old : Bytes) (rows : List Session) (s : Session)
      → Distinct (λ r. holds column (column r)) rows
      → bytes_eq a old ≡ false
      → find (holds column old) rows ≡ some s
      → find (holds column old) (update_where (λ r. r.id == s.id) f rows) ≡ none
  find_old old [] s d ne h = cc
  find_old old (t ∷ rows) s d ne h = elim (Bool-cases (bytes_eq (column t) old)) [
    | inl hit ↦
        let tail = rw ((bytes_eq_iff (column t) old).0 hit) at d.0 in
        let found : t ≡ s = ground arith in
        ground (arith, sets t, found, find-update_column column f a s.id sets old rows ne tail)
    | inr miss ↦ ground (arith, sets t, find_old old rows s d.1 ne)
  ]

  -- The new hash finds the row that was rotated.
  pub find_new :
      (k : ℕ) (rows : List Session) (s : Session)
      → find (holds column a) (filter (λ r. not (r.id == k)) rows) ≡ none
      → by_id k rows ≡ some s
      → find (holds column a) (update_where (λ r. r.id == k) f rows) ≡ some (f s)
  find_new k [] s free h = cc
  find_new k (t ∷ rows) s free h = ground (arith, sets t, bytes_eq_refl a, find_new k rows s)
