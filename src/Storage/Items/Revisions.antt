-- ===== src/Storage/Items/Revisions.antt =====
-- Optimistic concurrency of internal/storage/items.go Update.
use go_vault.Prelude.{
  ℕ, suc, ◌≤◌, ◌<◌, ◌≡◌, ◌≢◌, refl, Bool, true, false, List, [], ◌∷◌, Option, none, some, arith,
  Bytes, ◌==◌, find, update_where, Distinct, inl, inr, Bool-cases, ==_iff,
}
use go_vault.Errors.{not_found, conflict, ok, err}
use go_vault.Storage.Db.{VaultItem, Db}
use go_vault.Storage.Rows.{Distinct-update}
use go_vault.Storage.Items.{
  max_int32, is_item_type, owned_by, at_revision, revise, coalesce, item_type_arg, update,
}

abbrev pub same_id : VaultItem → VaultItem → Bool
same_id i j = j.id == i.id

find-at_revision :
    (id user_id rev : ℕ) (rows : List VaultItem) (i : VaultItem)
    → find (owned_by id user_id) rows ≡ some i
    → i.revision ≡ rev
    → find (at_revision id user_id rev) rows ≡ some i
find-at_revision id user_id rev [] i h e = cc
find-at_revision id user_id rev (j ∷ rows) i h e =
    ground (arith, find-at_revision id user_id rev rows i)

absent_id :
    (id user_id rev : ℕ) (rows : List VaultItem)
    → find (λ j. j.id == id) rows ≡ none
    → find (at_revision id user_id rev) rows ≡ none
absent_id id user_id rev [] h = refl
absent_id id user_id rev (j ∷ rows) h = ground (arith, absent_id id user_id rev rows)

find_stale :
    (id user_id rev : ℕ) (rows : List VaultItem) (i : VaultItem)
    → Distinct same_id rows
    → find (owned_by id user_id) rows ≡ some i
    → i.revision ≢ rev
    → find (at_revision id user_id rev) rows ≡ none
find_stale id user_id rev [] i d h ne = refl
find_stale id user_id rev (j ∷ rows) i d h ne = elim (Bool-cases (j.id == id)) [
  | inl same ↦
      let rest = rw ((==_iff j.id id).0 same) at (absent_id j.id user_id rev rows d.0) in
      ground (arith, rest)
  | inr other ↦ ground (arith, find_stale id user_id rev rows i d.1)
]

find_missing :
    (id user_id rev : ℕ) (rows : List VaultItem)
    → find (owned_by id user_id) rows ≡ none
    → find (at_revision id user_id rev) rows ≡ none
find_missing id user_id rev [] h = refl
find_missing id user_id rev (j ∷ rows) h = ground (arith, find_missing id user_id rev rows)

find_revised :
    (id user_id rev now : ℕ) (text : Bytes) (type : Option Bytes) (rows : List VaultItem)
    (i : VaultItem)
    → find (owned_by id user_id) rows ≡ some i
    → i.revision ≡ rev
    → find
        (owned_by id user_id)
        (update_where (at_revision id user_id rev) (revise now text type) rows)
      ≡ some (revise now text type i)
find_revised id user_id rev now text type [] i h e = cc
find_revised id user_id rev now text type (j ∷ rows) i h e =
    ground (arith, find_revised id user_id rev now text type rows i)

-- Every statement reaches the database.
abbrev pub IsUp : Db → Type 0
IsUp db = (n : ℕ) → db.outage n ≡ false

abbrev with_items : Db → ℕ → List VaultItem → Db
with_items db n rows = record db { items = rows; queries = n }

module _ (db : Db) (id user_id rev : ℕ) (text type : Bytes) (up : IsUp db)
    (in_range : rev ≤ max_int32) where
  update-stale :
      (i : VaultItem)
      → Distinct same_id db.items
      → find (owned_by id user_id) db.items ≡ some i
      → i.revision ≢ rev
      → (update id user_id rev text type db).0 ≡ err conflict
  unfolding update
  update-stale i d h ne =
      ground
        (arith, find_stale id user_id rev db.items i d h ne, up db.queries, up (suc db.queries), h)

  update-missing :
      find (owned_by id user_id) db.items ≡ none
      → (update id user_id rev text type db).0 ≡ err not_found
  unfolding update
  update-missing h =
      ground (arith, find_missing id user_id rev db.items h, up db.queries, up (suc db.queries), h)

-- An update by the current revision succeeds: the row has the new text, a revision one higher and
-- the time of the update.
module _ (db : Db) (id user_id : ℕ) (text type : Bytes) (up : IsUp db) (i : VaultItem)
    (here : find (owned_by id user_id) db.items ≡ some i) (room : i.revision < max_int32)
    (typed : is_item_type (coalesce (item_type_arg type) i.item_type) ≡ true) where
  abbrev revised : VaultItem
  revised = revise db.now text (item_type_arg type) i

  abbrev revised_db : Db
  revised_db = record db {
    items =
        update_where (at_revision id user_id i.revision) (revise db.now text (item_type_arg type))
          db.items;
    queries = suc db.queries;
  }

  update-current : update id user_id i.revision text type db ≡ (ok revised, revised_db)
  unfolding update
  update-current = ground (
    arith,
    find-at_revision id user_id i.revision db.items i here refl,
    up db.queries,
    here,
    room,
    typed,
  )

-- Two updates that start from one revision: the first succeeds, raises the revision by one and
-- stores its text, and the second gets a conflict, whatever it would write. The item is there and
-- below the largest revision, ids are distinct, and the type of the item after the first
-- update is a type of the schema. Every statement reaches the database.
pub update_twice :
    (db : Db) (id user_id : ℕ) (text type text' type' : Bytes) (i : VaultItem)
    → IsUp db
    → Distinct same_id db.items
    → find (owned_by id user_id) db.items ≡ some i
    → i.revision < max_int32
    → is_item_type (coalesce (item_type_arg type) i.item_type) ≡ true
    → let (first, db') = update id user_id i.revision text type db in
      let row = revise db.now text (item_type_arg type) i in
      (first ≡ ok row)
      × (find (owned_by id user_id) db'.items ≡ some row)
      × ((update id user_id i.revision text' type' db').0 ≡ err conflict)
update_twice db id user_id text type text' type' i up d here room typed =
    rw (update-current db id user_id text type up i here room typed) (
      refl,
      found,
      update-stale (revised_db db id user_id text type up i here room typed) id user_id i.revision
          text' type' up (omega arith) (revised db id user_id text type up i here room typed)
          (Distinct-update same_id (at_revision id user_id i.revision)
            (revise db.now text (item_type_arg type)) (λ j k. refl) (λ j k. refl) db.items d)
          found (omega arith),
    )
  where
    found :
        find (owned_by id user_id) (
          update_where
            (at_revision id user_id i.revision)
            (revise db.now text (item_type_arg type))
            db.items)
        ≡ some (revise db.now text (item_type_arg type) i)
    found = find_revised id user_id i.revision db.now text (item_type_arg type) db.items i here refl
