-- ===== src/Storage/Items.antt =====
-- internal/storage/items.go and convert.go over internal/storage/sqlcgen/items.sql.go. The struct
-- VaultItem and its row are one record. Revisions are int32 in the table and int in the program; a
-- negative one, which the handler refuses, is left out.
pub mod Revisions
use go_vault.Prelude.{
  ℕ, zero, suc, Bool, true, false, not, ◌&&◌, ◌||◌, List, [], ◌∷◌, ◌++◌, Option, none, some,
  if◌then◌else◌, Bytes, codes, ◌==◌, ltb, bytes_eq, find, filter, update_where, sort_desc, length,
}
use go_vault.Errors.{
  Error, no_rows, not_found, conflict, unavailable, revision_out_of_range, foreign_key_violation,
  check_violation, Result, ok, err,
}
use go_vault.Storage.Db.{
  VaultItem, Db, Query, ◌>>=◌, ◌>>◌, pure, fail, gets, one, try, of_result, modify, guard,
  statement, or_not_found, fresh_id, user_exists,
}

-- math.MaxInt32, the largest value of an INTEGER column too.
abbrev pub max_int32 : ℕ
max_int32 = 2147483647

-- The constants of api.gen.go, and of the CHECK on vault_items.item_type.
abbrev pub is_item_type : Bytes → Bool
is_item_type t =
    bytes_eq t (codes "login")
    || bytes_eq t (codes "note")
    || bytes_eq t (codes "card")
    || bytes_eq t (codes "identity")

abbrev pub owned_by : ℕ → ℕ → VaultItem → Bool
owned_by id user_id i = i.id == id && i.user_id == user_id

-- The queries.

unfoldable pub create_item : ℕ → Bytes → Bytes → Query VaultItem
unfolding statement
create_item user_id ciphertext item_type = do
  statement
  users ← gets (λ db. db.users)
  guard (is_item_type item_type) check_violation
  guard (user_exists users user_id) foreign_key_violation
  id ← fresh_id
  now ← gets (λ db. db.now)
  let row = new_row id now
  modify (λ db. record db { items = db.items ++ row ∷ [] })
  pure row
  where
    new_row : ℕ → ℕ → VaultItem
    new_row id now = record {
      id = id;
      user_id = user_id;
      ciphertext = ciphertext;
      item_type = item_type;
      revision = 1;
      updated_at = now;
    }

unfoldable pub get_item : ℕ → ℕ → Query VaultItem
unfolding statement
get_item id user_id = do statement; row ← gets (λ db. find (owned_by id user_id) db.items); one row

unfoldable pub list_items : ℕ → Query (List VaultItem)
unfolding statement
list_items user_id = do
  statement
  gets (λ db. sort_desc (λ i. i.updated_at) (filter (λ i. i.user_id == user_id) db.items))

-- COALESCE($5, item_type)
abbrev pub coalesce : Option Bytes → Bytes → Bytes
coalesce none old = old
coalesce (some new) old = new

abbrev pub revise : ℕ → Bytes → Option Bytes → VaultItem → VaultItem
revise now ciphertext item_type i = record i {
  ciphertext = ciphertext;
  item_type = coalesce item_type i.item_type;
  revision = suc i.revision;
  updated_at = now;
}

abbrev pub at_revision : ℕ → ℕ → ℕ → VaultItem → Bool
at_revision id user_id revision i = owned_by id user_id i && i.revision == revision

-- `revision + 1` past the range of INTEGER, and a new item type that the CHECK refuses, are errors.
unfoldable pub update_item : ℕ → ℕ → ℕ → Bytes → Option Bytes → Query VaultItem
unfolding statement
update_item id user_id revision ciphertext item_type = do
  statement
  row ← gets (λ db. find (at_revision id user_id revision) db.items)
  i ← one row
  guard (ltb i.revision max_int32) unavailable
  guard (is_item_type (coalesce item_type i.item_type)) check_violation
  now ← gets (λ db. db.now)
  modify (λ db. record db {
    items =
        update_where (at_revision id user_id revision) (revise now ciphertext item_type) db.items;
  })
  pure (revise now ciphertext item_type i)

-- `SELECT 1`, of which only whether there is a row is read.
unfoldable pub item_exists_row : ℕ → ℕ → Query VaultItem
unfolding statement
item_exists_row id user_id = do
  statement
  row ← gets (λ db. find (owned_by id user_id) db.items)
  one row

unfoldable pub delete_item : ℕ → ℕ → Query ℕ
unfolding statement
delete_item id user_id = do
  statement
  n ← gets (λ db. length (filter (owned_by id user_id) db.items))
  modify (λ db. record db { items = filter (λ i. not (owned_by id user_id i)) db.items })
  pure n

-- The repository.

unfoldable pub create : ℕ → Bytes → Bytes → Query VaultItem
unfolding create_item
create user_id ciphertext item_type = create_item user_id ciphertext item_type

unfoldable pub get : ℕ → ℕ → Query VaultItem
unfolding get_item
get id user_id = or_not_found (get_item id user_id)

unfoldable pub list : ℕ → Query (List VaultItem)
unfolding list_items
list user_id = list_items user_id

-- `mapNotFound(err) == ErrNotFound` makes a missing row false.
unfoldable pub item_exists : ℕ → ℕ → Query Bool
unfolding item_exists_row
item_exists id user_id = do r ← try (item_exists_row id user_id); of_result (exists_of r)
  where
    exists_of : Result VaultItem → Result Bool
    exists_of (ok i) = ok true
    exists_of (err no_rows) = ok false
    exists_of (err not_found) = ok false
    exists_of (err e) = err e

-- revisionAsInt32
unfoldable pub revision_as_int32 : ℕ → Result ℕ
revision_as_int32 rev = if ltb max_int32 rev then err revision_out_of_range else ok rev

-- `if newItemType != "" { itemTypeArg = newItemType }`
abbrev pub item_type_arg : Bytes → Option Bytes
item_type_arg [] = none
item_type_arg (c ∷ cs) = some (c ∷ cs)

-- What `Update` makes of the result of the query.
unfoldable pub resolve_update : ℕ → ℕ → Result VaultItem → Query VaultItem
unfolding item_exists
resolve_update id user_id (ok item) = pure item
resolve_update id user_id (err no_rows) = do
  exists ← item_exists id user_id
  fail (if exists then conflict else not_found)
resolve_update id user_id (err e) = fail e

unfoldable pub update : ℕ → ℕ → ℕ → Bytes → Bytes → Query VaultItem
unfolding revision_as_int32 update_item resolve_update
update id user_id current_revision new_ciphertext new_item_type = do
  rev ← of_result (revision_as_int32 current_revision)
  r ← try (update_item id user_id rev new_ciphertext (item_type_arg new_item_type))
  resolve_update id user_id r

unfoldable pub delete : ℕ → ℕ → Query (Unit {0})
unfolding delete_item
delete id user_id = do n ← delete_item id user_id; if n == 0 then fail not_found else pure tt
