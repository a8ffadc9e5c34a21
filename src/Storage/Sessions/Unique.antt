-- ===== src/Storage/Sessions/Unique.antt =====
-- The UNIQUE columns of the table sessions, under every statement of internal/storage/sessions.go.
use go_vault.Prelude.{
  ℕ, suc, ◌≡◌, refl, Bool, true, false, not, List, [], ◌∷◌, ◌++◌, none, arith, Bytes, ◌==◌,
  bytes_eq, bytes_eq_iff, find, filter, update_where, Distinct, inl, inr, Bool-cases, ==_iff, ℤ,
}
use go_vault.Storage.Db.{Session, Db}
use go_vault.Storage.Rows.{
  Distinct-append, Distinct-filter, Distinct-update, Below, Below-later, find_above, Below-append,
  Below-filter, Below-update, swap_bytes,
}
use go_vault.Storage.Sessions.{
  by_access, by_refresh, by_id, both_free, tokens, create_pair, rotate_tokens,
  delete_by_access_hash, delete_by_refresh_hash, delete_all_for_user,
}

abbrev pub same_id : Session → Session → Bool
same_id s t = t.id == s.id

abbrev pub same_access : Session → Session → Bool
same_access s t = bytes_eq t.access_token_hash s.access_token_hash

abbrev pub same_refresh : Session → Session → Bool
same_refresh s t = bytes_eq t.refresh_token_hash s.refresh_token_hash

-- No two rows share an id, an access hash or a refresh hash, and the ids are those given out.
pub record IsUnique (db : Db) : Type 0 where
  pub ids : Distinct same_id db.sessions
  pub access : Distinct same_access db.sessions
  pub refresh : Distinct same_refresh db.sessions
  pub given : Below (λ s. s.id) db.next_id db.sessions

update_absent :
    (k : ℕ) (f : Session → Session) (rows : List Session)
    → by_id k rows ≡ none
    → update_where (λ r. r.id == k) f rows ≡ rows
update_absent k f [] h = refl
update_absent k f (s ∷ rows) h = ground (arith, update_absent k f rows)

filter_absent :
    (k : ℕ) (rows : List Session) → by_id k rows ≡ none → filter (λ r. not (r.id == k)) rows ≡ rows
filter_absent k [] h = refl
filter_absent k (s ∷ rows) h = ground (arith, filter_absent k rows)

abbrev pub holds : (Session → Bytes) → Bytes → Session → Bool
holds column b t = bytes_eq (column t) b

-- A UNIQUE column, and a replacement of its value in the row of one id.
module _ (column : Session → Bytes) (f : Session → Session) (a : Bytes) (k : ℕ)
    (sets : (s : Session) → column (f s) ≡ a) where
  pub find-update_column :
      (b : Bytes) (rows : List Session)
      → bytes_eq a b ≡ false
      → find (holds column b) rows ≡ none
      → find (holds column b) (update_where (λ r. r.id == k) f rows) ≡ none
  find-update_column b [] ne h = refl
  find-update_column b (s ∷ rows) ne h = ground (arith, sets s, find-update_column b rows)

  pub Distinct-update_column :
      (rows : List Session)
      → Distinct same_id rows
      → find (holds column a) (filter (λ r. not (r.id == k)) rows) ≡ none
      → Distinct (λ s. holds column (column s)) rows
      → Distinct (λ s. holds column (column s)) (update_where (λ r. r.id == k) f rows)
  Distinct-update_column [] ids free d = tt
  Distinct-update_column (s ∷ rows) ids free d = elim (Bool-cases (s.id == k)) [
    | inl hit ↦
        let gone = rw ((==_iff s.id k).0 hit) at ids.0 in
        let unused : find (holds column a) rows ≡ none =
          rw (← filter_absent k rows gone) (ground arith) in
        rw (hit, update_absent k f rows gone, sets s) (unused, d.1)
    | inr miss ↦
        let differs : bytes_eq a (column s) ≡ false =
          ground (arith, bytes_eq_iff a (column s), bytes_eq_iff (column s) a) in
        rw miss (
          find-update_column (column s) rows differs d.0,
          Distinct-update_column rows ids.1 (ground arith) d.1,
        )
  ]

filter-IsUnique :
    (db : Db) (n : ℕ) (p : Session → Bool)
    → IsUnique db
    → IsUnique (record db { sessions = filter p db.sessions; queries = n })
filter-IsUnique db n p u = record {
  ids = Distinct-filter same_id (λ s t h. ground arith) p db.sessions u.ids;
  access = Distinct-filter same_access (λ s t h. swap_bytes _ _ h) p db.sessions u.access;
  refresh = Distinct-filter same_refresh (λ s t h. swap_bytes _ _ h) p db.sessions u.refresh;
  given = Below-filter (λ s. s.id) db.next_id p db.sessions u.given;
}

append-IsUnique :
    (db : Db) (n : ℕ) (s : Session)
    → s.id ≡ db.next_id
    → by_access s.access_token_hash db.sessions ≡ none
    → by_refresh s.refresh_token_hash db.sessions ≡ none
    → IsUnique db
    → IsUnique
        (record db { sessions = db.sessions ++ s ∷ []; queries = n; next_id = suc db.next_id })
append-IsUnique db n s e a r u = record {
  ids =
      Distinct-append same_id (λ s t h. ground arith) db.sessions s
        (find_above (λ s. s.id) db.next_id s.id db.sessions (omega arith) u.given) u.ids;
  access = Distinct-append same_access (λ s t h. swap_bytes _ _ h) db.sessions s a u.access;
  refresh = Distinct-append same_refresh (λ s t h. swap_bytes _ _ h) db.sessions s r u.refresh;
  given =
      Below-append (λ s. s.id) (suc db.next_id) db.sessions s
        (Below-later (λ s. s.id) db.next_id (suc db.next_id) db.sessions (omega arith) u.given)
        (rw e (omega arith));
}

update-IsUnique :
    (db : Db) (n id : ℕ) (access : Bytes) (access_expires : ℤ) (refresh : Bytes)
    (refresh_expires : ℤ)
    → both_free access refresh (filter (λ r. not (r.id == id)) db.sessions) ≡ true
    → IsUnique db
    → IsUnique (record db {
      sessions =
          update_where
            (λ r. r.id == id)
            (tokens access access_expires refresh refresh_expires)
            db.sessions;
      queries = n;
    })
update-IsUnique db n id access access_expires refresh refresh_expires free u = record {
  ids = Distinct-update same_id (λ r. r.id == id) f (λ s t. refl) (λ s t. refl) db.sessions u.ids;
  access =
      Distinct-update_column (λ s. s.access_token_hash) f access id (λ s. refl) db.sessions u.ids
        (ground arith) u.access;
  refresh =
      Distinct-update_column (λ s. s.refresh_token_hash) f refresh id (λ s. refl) db.sessions u.ids
        (ground arith) u.refresh;
  given = Below-update (λ s. s.id) db.next_id (λ r. r.id == id) f (λ s. refl) db.sessions u.given;
}
  where
    f : Session → Session
    f = tokens access access_expires refresh refresh_expires

-- The statements of the repository that change sessions.
pub data Change : Type 0 where
  creates : ℕ → Bytes → ℤ → Bytes → ℤ → Change
  rotates : ℕ → Bytes → ℤ → Bytes → ℤ → Change
  deletes_access deletes_refresh : Bytes → Change
  deletes_user : ℕ → Change

pub apply : Change → Db → Db
apply (creates id a at r rt) db = (create_pair id a at r rt db).1
apply (rotates id a at r rt) db = (rotate_tokens id a at r rt db).1
apply (deletes_access h) db = (delete_by_access_hash h db).1
apply (deletes_refresh h) db = (delete_by_refresh_hash h db).1
apply (deletes_user id) db = (delete_all_for_user id db).1

-- Whatever statement runs, and whether or not it fails, no two sessions come to share an id, an
-- access hash or a refresh hash.
pub apply-IsUnique : (c : Change) (db : Db) → IsUnique db → IsUnique (apply c db)
unfolding apply create_pair rotate_tokens delete_by_access_hash delete_by_refresh_hash
    delete_all_for_user
apply-IsUnique (creates id a at r rt) db u =
    ground (arith, append-IsUnique db (suc db.queries) row refl, u)
  where
    row : Session
    row = record {
      id = db.next_id;
      user_id = id;
      access_token_hash = a;
      access_expires_at = at;
      refresh_token_hash = r;
      refresh_expires_at = rt;
      created_at = db.now;
    }
apply-IsUnique (rotates id a at r rt) db u =
    ground (arith, update-IsUnique db (suc db.queries) id a at r rt, u)
apply-IsUnique (deletes_access h) db u =
    ground
      (arith, filter-IsUnique db (suc db.queries) (λ s. not (bytes_eq s.access_token_hash h)) u)
apply-IsUnique (deletes_refresh h) db u =
    ground
      (arith, filter-IsUnique db (suc db.queries) (λ s. not (bytes_eq s.refresh_token_hash h)) u)
apply-IsUnique (deletes_user id) db u =
    ground (arith, filter-IsUnique db (suc db.queries) (λ s. not (s.user_id == id)) u)
