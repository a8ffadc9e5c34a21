-- ===== src/Api/Vault/Ownership.antt =====
-- A user's requests reach only the user's own items, internal/api/handlers.go and
-- internal/storage/items.go.
use go_vault.Prelude.{
  ℕ, ◌≡◌, true, false, List, [], ◌∷◌, ◌++◌, Option, none, some, arith, Bytes, ◌==◌, filter,
  filter-update_where, filter-filter-not, ==_iff,
}
use go_vault.Errors.{Result, ok, err}
use go_vault.Primitives.{Primitives}
use go_vault.Storage.Db.{
  VaultItem, Db, item_create, item_update, item_delete, no_metadata, of_item_type, of_revision,
}
use go_vault.Storage.Items.{
  owned_by, at_revision, revise, item_type_arg, create, update, delete, resolve_update,
  update_item as update_row,
}
use go_vault.Api.Server.{Request, Server}
use go_vault.Api.Login.SecondFactor.{with_db}
use go_vault.Api.Reply.{validate_ciphertext}
use go_vault.Api.Reply.Recording.{record_event-Recorded}
use go_vault.Api.Vault.{
  NewItem, UpdateItem, create_item, update_item, delete_item, item_created as created_answer,
  item_updated, item_removed, type_or_empty,
}

-- The items of a user, in the order of the table.
abbrev pub of_user : ℕ → List VaultItem → List VaultItem
of_user id = filter (λ i. i.user_id == id)

resolve-keeps :
    (id user_id : ℕ) (r : Result VaultItem) (db : Db)
    → (resolve_update id user_id r db).1.items ≡ db.items
unfolding resolve_update
resolve-keeps id user_id (ok i) db = ground arith
resolve-keeps id user_id (err e) db = ground arith

append-other :
    (other : ℕ) (rows : List VaultItem) (row : VaultItem)
    → (row.user_id == other) ≡ false
    → of_user other (rows ++ row ∷ []) ≡ of_user other rows
append-other other [] row h = ground arith
append-other other (i ∷ rows) row h = ground (arith, append-other other rows row h)

module _ (me other : ℕ) (apart : (me == other) ≡ false) where
  not_mine : (id : ℕ) (i : VaultItem) → owned_by id me i ≡ true → (i.user_id == other) ≡ false
  not_mine id i h = ground (arith, ==_iff i.user_id me, apart, h)

  create-separate :
      (text type : Bytes) (db : Db)
      → of_user other (create me text type db).1.items ≡ of_user other db.items
  unfolding create
  create-separate text type db = ground (arith, append-other other db.items row apart)
    where
      row : VaultItem
      row = record {
        id = db.next_id;
        user_id = me;
        ciphertext = text;
        item_type = type;
        revision = 1;
        updated_at = db.now;
      }

  update_row-separate :
      (id rev : ℕ) (text : Bytes) (type : Option Bytes) (db : Db)
      → of_user other (update_row id me rev text type db).1.items ≡ of_user other db.items
  unfolding update_row
  update_row-separate id rev text type db = ground (
    arith,
    filter-update_where (λ i. i.user_id == other) (at_revision id me rev) (revise db.now text type)
        db.items (λ i h. ground (arith, not_mine id i, h)),
  )

  update-separate :
      (id rev : ℕ) (text type : Bytes) (db : Db)
      → of_user other (update id me rev text type db).1.items ≡ of_user other db.items
  unfolding update
  update-separate id rev text type db =
      let made = update_row id me rev text (item_type_arg type) db in
      ground (
        arith,
        update_row-separate id rev text (item_type_arg type) db,
        resolve-keeps id me made.0 made.1,
      )

  delete-separate :
      (id : ℕ) (db : Db) → of_user other (delete id me db).1.items ≡ of_user other db.items
  unfolding delete
  delete-separate id db =
      ground
        (arith, filter-filter-not (λ i. i.user_id == other) (owned_by id me) db.items (not_mine id))

module _ (p : Primitives) (r : Request) where
  created-keeps :
      (me : ℕ) (type : Bytes) (result : Result VaultItem) (s : Server)
      → (created_answer p r me type result s).1.db.items ≡ s.db.items
  unfolding created_answer
  created-keeps me type (ok row) s =
      ground
        (arith, record_event-Recorded p r (some me) item_create (some row.id) (of_item_type type) s)
  created-keeps me type (err e) s = ground arith

  updated-keeps :
      (me : ℕ) (result : Result VaultItem) (s : Server)
      → (item_updated p r me result s).1.db.items ≡ s.db.items
  unfolding item_updated
  updated-keeps me (ok row) s = ground (
    arith,
    record_event-Recorded p r (some me) item_update (some row.id) (of_revision row.revision) s,
  )
  updated-keeps me (err e) s = ground arith

  removed-keeps :
      (id me : ℕ) (result : Result (Unit {0})) (s : Server)
      → (item_removed p r id me result s).1.db.items ≡ s.db.items
  unfolding item_removed
  removed-keeps id me (ok row) s =
      ground (arith, record_event-Recorded p r (some me) item_delete (some id) no_metadata s)
  removed-keeps id me (err e) s = ground arith

module _ (p : Primitives) (r : Request) (me other : ℕ) (s : Server) (who : r.user_id ≡ some me)
    (apart : (me == other) ≡ false) where
  create_item-separate :
      (body : Option NewItem)
      → of_user other (create_item p r body s).1.db.items ≡ of_user other s.db.items
  unfolding create_item validate_ciphertext
  create_item-separate none = ground arith
  create_item-separate (some b) =
      let made = create me b.ciphertext b.item_type s.db in
      ground (
        arith,
        create-separate me other apart b.ciphertext b.item_type s.db,
        created-keeps p r me b.item_type made.0 (with_db made.1 s),
      )

  update_item-separate :
      (id : ℕ) (body : Option UpdateItem)
      → of_user other (update_item p r id body s).1.db.items ≡ of_user other s.db.items
  unfolding update_item validate_ciphertext
  update_item-separate id none = ground arith
  update_item-separate id (some b) =
      let made = update id me b.current_revision b.ciphertext (type_or_empty b.item_type) s.db in
      ground (
        arith,
        update-separate me other apart id b.current_revision b.ciphertext
            (type_or_empty b.item_type) s.db,
        updated-keeps p r me made.0 (with_db made.1 s),
      )

  delete_item-separate :
      (id : ℕ) → of_user other (delete_item p r id s).1.db.items ≡ of_user other s.db.items
  unfolding delete_item
  delete_item-separate id =
      let made = delete id me s.db in
      ground (
        arith,
        delete-separate me other apart id s.db,
        removed-keeps p r id me made.0 (with_db made.1 s),
      )

-- One user's requests leave the items of every other user as they are, whatever item they name and
-- whatever the database does.
pub requests_separate :
    (p : Primitives) (r : Request) (me other : ℕ) (s : Server) (new : Option NewItem) (id : ℕ)
    (change : Option UpdateItem)
    → r.user_id ≡ some me
    → (me == other) ≡ false
    → let theirs = of_user other s.db.items in
      (of_user other (create_item p r new s).1.db.items ≡ theirs)
      × (of_user other (update_item p r id change s).1.db.items ≡ theirs)
      × (of_user other (delete_item p r id s).1.db.items ≡ theirs)
requests_separate p r me other s new id change who apart = (
  create_item-separate p r me other s who apart new,
  update_item-separate p r me other s who apart id change,
  delete_item-separate p r me other s who apart id,
)
