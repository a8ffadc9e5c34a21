-- ===== src/Storage/Sound/Items.antt =====
-- The statements of internal/storage/sqlcgen/items.sql.go against the constraints of db/schema.sql.
use go_vault.Prelude.{
  ℕ, suc, ◌≡◌, refl, Bool, inl, inr, Bool-cases, true, false, not, ◌&&◌, [], ◌∷◌, ◌++◌, Option,
  none, some, arith, Bytes, ◌==◌, ltb, leb, ==_iff, find-holds, find, filter, update_where,
}
use go_vault.Storage.Db.{VaultItem, Db, user_exists}
use go_vault.Storage.Items.{
  owned_by, at_revision, revise, coalesce, is_item_type, max_int32, create_item, update_item,
  delete_item,
}
use go_vault.Storage.Keeps.{Keeps}
use go_vault.Storage.Rows.{Every-append, Every-filter, Every-update}
use go_vault.Storage.Sound.{table_append, table_filter, table_update, is_valid, IsSound}
use go_vault.Storage.Sound.Changes.{with_items}
use go_vault.Storage.Sound.Statements.{same}

adds_item :
    (db : Db) (queries : ℕ) (x : VaultItem)
    → x.id ≡ db.next_id
    → user_exists db.users x.user_id ≡ true
    → is_valid x ≡ true
    → IsSound db
    → IsSound
        (record db { items = db.items ++ x ∷ []; queries = queries; next_id = suc db.next_id })
adds_item db queries x e h v s =
    with_items db queries (suc db.next_id) (omega arith) s (db.items ++ x ∷ [])
      (table_append x e h s.items) (Every-append is_valid db.items x s.valid v)

and_left : (a b : Bool) → a && b ≡ true → a ≡ true
and_left a b h = ground arith

and_right : (a b : Bool) → a && b ≡ true → b ≡ true
and_right a b h = ground arith

revised :
    (t : Bool) (n rev : ℕ)
    → t ≡ true
    → n == rev ≡ true
    → ltb rev max_int32 ≡ true
    → t && leb 1 (suc n) && leb (suc n) max_int32 ≡ true
revised t n rev e h b = ground (arith, ==_iff n rev)

-- Every row that an update hits is at its revision, below the largest one.
updates_item :
    (db : Db) (queries id user_id rev : ℕ) (text : Bytes) (type : Option Bytes) (i : VaultItem)
    → find (at_revision id user_id rev) db.items ≡ some i
    → ltb i.revision max_int32 ≡ true
    → is_item_type (coalesce type i.item_type) ≡ true
    → IsSound db
    → IsSound (record db {
      items = update_where (at_revision id user_id rev) (revise db.now text type) db.items;
      queries = queries;
    })
updates_item db queries id user_id rev text type i found below valid s =
    with_items db queries db.next_id (omega arith) s
      (update_where (at_revision id user_id rev) (revise db.now text type) db.items)
      (table_update (at_revision id user_id rev) (revise db.now text type) (λ x. refl) (λ x. refl)
        s.items)
      (Every-update is_valid is_valid (at_revision id user_id rev) (revise db.now text type)
        db.items (λ x e h. h) (λ x e h. new-valid x e h type valid) s.valid)
  where
    rev-below : ltb rev max_int32 ≡ true
    rev-below =
        let same_rev = (==_iff i.revision rev).0 (
          and_right (owned_by id user_id i) (i.revision == rev)
            (find-holds (at_revision id user_id rev) db.items i found)) in
        ground arith

    new-valid :
        (x : VaultItem)
        → at_revision id user_id rev x ≡ true
        → is_valid x ≡ true
        → (type : Option Bytes) → is_item_type (coalesce type i.item_type) ≡ true
        → is_valid (revise db.now text type x) ≡ true
    new-valid x e h none v =
        revised (is_item_type x.item_type) x.revision rev
          (and_left (is_item_type x.item_type) (leb 1 x.revision)
            (and_left (is_item_type x.item_type && leb 1 x.revision) (leb x.revision max_int32) h))
          (and_right (owned_by id user_id x) (x.revision == rev) e) rev-below
    new-valid x e h (some t) v =
        revised (is_item_type t) x.revision rev v
          (and_right (owned_by id user_id x) (x.revision == rev) e) rev-below

deletes_item :
    (db : Db) (queries id user_id : ℕ)
    → IsSound db
    → IsSound (record db {
      items = filter (λ i. not (owned_by id user_id i)) db.items;
      queries = queries;
    })
deletes_item db queries id user_id s =
    with_items db queries db.next_id (omega arith) s
      (filter (λ i. not (owned_by id user_id i)) db.items)
      (table_filter db.users (λ i. not (owned_by id user_id i)) (λ x e h. h) s.items)
      (Every-filter is_valid is_valid (λ i. not (owned_by id user_id i)) db.items (λ x e h. h)
        s.valid)

pub create_item-IsSound : (id : ℕ) (text type : Bytes) → Keeps IsSound (create_item id text type)
unfolding create_item
create_item-IsSound id text type = record {
  at = λ db s.
      let row : VaultItem = record {
        id = db.next_id;
        user_id = id;
        ciphertext = text;
        item_type = type;
        revision = 1;
        updated_at = db.now;
      } in
      ground (arith, same db (suc db.queries) s, adds_item db (suc db.queries) row refl, s);
}

pub update_item-IsSound :
    (id user_id rev : ℕ) (text : Bytes) (type : Option Bytes)
    → Keeps IsSound (update_item id user_id rev text type)
unfolding update_item
update_item-IsSound id user_id rev text type = record {
  at =
      λ db s. go db s (db.outage db.queries) (find (at_revision id user_id rev) db.items) refl refl;
}
  where
    as_before :
        (db : Db)
        → IsSound db
        → (update_item id user_id rev text type db).1 ≡ record db { queries = suc db.queries }
        → IsSound (update_item id user_id rev text type db).1
    as_before db s eq = rw eq (same db (suc db.queries) s)

    go :
        (db : Db)
        → IsSound db
        → (out : Bool) (row : Option VaultItem) → db.outage db.queries ≡ out
        → find (at_revision id user_id rev) db.items ≡ row
        → IsSound (update_item id user_id rev text type db).1
    go db s true row e f = as_before db s (ground arith)
    go db s false none e f = as_before db s (ground arith)
    go db s false (some i) e f = elim (Bool-cases (ltb i.revision max_int32)) [
      | inl below ↦ elim (Bool-cases (is_item_type (coalesce type i.item_type))) [
        | inl valid ↦
            let eq : (update_item id user_id rev text type db).1 ≡ record db {
              items = update_where (at_revision id user_id rev) (revise db.now text type) db.items;
              queries = suc db.queries;
            } =
              ground arith in
            rw eq (updates_item db (suc db.queries) id user_id rev text type i f below valid s)
        | inr invalid ↦ as_before db s (ground arith)
      ]
      | inr above ↦ as_before db s (ground arith)
    ]

pub delete_item-IsSound : (id user_id : ℕ) → Keeps IsSound (delete_item id user_id)
unfolding delete_item
delete_item-IsSound id user_id = record {
  at = λ db s.
      ground (arith, same db (suc db.queries) s, deletes_item db (suc db.queries) id user_id s);
}
