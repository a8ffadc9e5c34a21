-- ===== src/Api/Vault.antt =====
-- internal/api/handlers.go: the items of a vault and its snapshot. An item in a response has the
-- fields of its row but the owner: storageItemToGen is the row itself.
pub mod Ownership
use go_vault.Prelude.{ℕ, Bool, true, false, not, [], Option, none, some, Bytes, ltb}
use go_vault.Errors.{Error, not_found, conflict, Result, ok, err}
use go_vault.Primitives.{Primitives}
use go_vault.Storage.Db.{
  User, VaultItem, item_create, item_update, item_delete, no_metadata, of_item_type, of_revision,
}
use go_vault.Storage.Items
use go_vault.Storage.Items.{is_item_type}
use go_vault.Storage.Users
use go_vault.Api.Server.{
  Request, Handler, ◌>>=◌, ◌>>◌, pure, reply, reply_if, or_reply, ok_or_reply, call, error, no_body,
  item, items, sync, bad_body, authentication_required,
}
use go_vault.Api.Reply.{record_event, validate_ciphertext}

pub record NewItem : Type 0 where
  pub ciphertext : Bytes
  pub item_type : Bytes

pub record UpdateItem : Type 0 where
  pub ciphertext : Bytes
  pub item_type : Option Bytes
  pub current_revision : ℕ

-- An absent item type is passed on as "".
abbrev pub type_or_empty : Option Bytes → Bytes
type_or_empty none = []
type_or_empty (some t) = t

abbrev pub is_item_type_or_absent : Option Bytes → Bool
is_item_type_or_absent none = true
is_item_type_or_absent (some t) = is_item_type t

unfoldable pub list_items : Request → Handler (Unit {0})
unfolding Items.list
list_items r = do
  user_id ← or_reply r.user_id 403 authentication_required
  found ← call (Items.list user_id)
  rows ← ok_or_reply found 500 (error "failed to list items")
  reply 200 (items rows)

module _ (p : Primitives) where
  -- The end of CreateItem, by the result of `Items.Create`.
  unfoldable pub item_created : Request → ℕ → Bytes → Result VaultItem → Handler (Unit {0})
  unfolding record_event
  item_created r user_id item_type created = do
    row ← ok_or_reply created 500 (error "failed to create item")
    record_event p r (some user_id) item_create (some row.id) (of_item_type item_type)
    reply 201 (item row)

  unfoldable pub create_item : Request → Option NewItem → Handler (Unit {0})
  unfolding validate_ciphertext Items.create item_created
  create_item r decoded = do
    user_id ← or_reply r.user_id 403 authentication_required
    body ← or_reply decoded 400 bad_body
    validate_ciphertext p body.ciphertext
    reply_if (not (is_item_type body.item_type)) 400 (error "invalid item_type")
    created ← call (Items.create user_id body.ciphertext body.item_type)
    item_created r user_id body.item_type created

  -- The end of UpdateItem, by the result of `Items.Update`.
  unfoldable pub item_updated : Request → ℕ → Result VaultItem → Handler (Unit {0})
  unfolding record_event
  item_updated r user_id (ok row) = do
    record_event p r (some user_id) item_update (some row.id) (of_revision row.revision)
    reply 200 (item row)
  item_updated r user_id (err not_found) = reply 404 (error "item not found")
  item_updated r user_id (err conflict) =
      reply 409 (error "revision conflict: fetch the latest version before retrying")
  item_updated r user_id (err e) = reply 500 (error "failed to update item")

  unfoldable pub update_item : Request → ℕ → Option UpdateItem → Handler (Unit {0})
  unfolding validate_ciphertext Items.update item_updated
  update_item r id decoded = do
    user_id ← or_reply r.user_id 403 authentication_required
    body ← or_reply decoded 400 bad_body
    validate_ciphertext p body.ciphertext
    reply_if (ltb body.current_revision 1) 400 (error "current_revision must be >= 1")
    reply_if (not (is_item_type_or_absent body.item_type)) 400 (error "invalid item_type")
    updated ← call (
        Items.update id user_id body.current_revision body.ciphertext
          (type_or_empty body.item_type))
    item_updated r user_id updated

  unfoldable pub item_removed : Request → ℕ → ℕ → Result (Unit {0}) → Handler (Unit {0})
  unfolding record_event
  item_removed r id user_id (ok u) = do
    record_event p r (some user_id) item_delete (some id) no_metadata
    reply 204 no_body
  item_removed r id user_id (err not_found) = reply 404 (error "item not found")
  item_removed r id user_id (err e) = reply 500 (error "failed to delete item")

  unfoldable pub delete_item : Request → ℕ → Handler (Unit {0})
  unfolding Items.delete item_removed
  delete_item r id = do
    user_id ← or_reply r.user_id 403 authentication_required
    removed ← call (Items.delete id user_id)
    item_removed r id user_id removed

  -- The end of GetSync, by the result of `Users.GetByID`.
  unfoldable pub sync_user : ℕ → Result User → Handler (Unit {0})
  unfolding Items.list
  sync_user user_id (ok user) = do
    found ← call (Items.list user_id)
    rows ← ok_or_reply found 500 (error "failed to load items")
    params ← or_reply (p.kdf_of_json user.kdf_params) 500 (error "failed to load user params")
    reply 200
        (sync user.protected_symmetric_key params user.totp_enabled user.protected_totp_secret rows)
  sync_user user_id (err not_found) = reply 403 (error "user not found")
  sync_user user_id (err e) = reply 500 (error "failed to load user")

  unfoldable pub get_sync : Request → Handler (Unit {0})
  unfolding Users.get_by_id sync_user
  get_sync r = do
    user_id ← or_reply r.user_id 403 authentication_required
    found ← call (Users.get_by_id user_id)
    sync_user user_id found
