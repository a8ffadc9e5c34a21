-- ===== src/Api/Keeps/Vault.antt =====
-- What the vault, activity, registration and health handlers of internal/api keep of the tables.
use go_vault.Prelude.{ℕ, not, Option, some, Bytes, ltb}
use go_vault.Errors.{not_found, conflict, Result, ok, err}
use go_vault.Primitives.{Primitives}
use go_vault.Storage.Db.{
  User, VaultItem, Db, item_create, item_update, item_delete, no_metadata, of_item_type,
  of_revision,
}
use go_vault.Storage.Items.{is_item_type, create}
use go_vault.Storage.Closed.{
  Closed, list_items-Keeps, update_item-Keeps, delete_item-Keeps, get_by_id-Keeps,
  list_by_user-Keeps,
}
use go_vault.Storage.Keeps.{Keeps}
use go_vault.Api.Server.{
  Request, error, bad_body, authentication_required, no_body, item, items, sync, activity, healthy,
  ready,
}
use go_vault.Api.Keeps.{
  HandlerKeeps, h_reply, h_or_reply, h_ok_or_reply, h_call, h_bind, h_then, h_reply_if,
  validate_ciphertext-HandlerKeeps, record_event-HandlerKeeps,
}
use go_vault.Api.Vault.{
  NewItem, UpdateItem, type_or_empty, is_item_type_or_absent, list_items, item_created, create_item,
  item_updated, update_item, item_removed, delete_item, sync_user, get_sync,
}
use go_vault.Api.Activity.{query_limit, page, get_activity}
use go_vault.Api.Register.{get_health, get_ready}

module _ {P : Db → Type 0} (c : Closed P) where
  create_item-Keeps : (user_id : ℕ) (text type : Bytes) → Keeps P (create user_id text type)
  unfolding create
  create_item-Keeps user_id text type = c.creates_item user_id text type

  pub list_items-HandlerKeeps : (r : Request) → HandlerKeeps P (list_items r)
  unfolding list_items
  list_items-HandlerKeeps r = h_bind (h_or_reply r.user_id 403 authentication_required) λ user_id.
      h_bind (h_call (list_items-Keeps c user_id)) λ found.
        h_bind (h_ok_or_reply found 500 (error "failed to list items"))
          λ rows. h_reply 200 (items rows)

  pub get_activity-HandlerKeeps :
      (r : Request) (raw_limit : Bytes) (cursor : Option ℕ)
      → HandlerKeeps P (get_activity r raw_limit cursor)
  unfolding get_activity
  get_activity-HandlerKeeps r raw_limit cursor =
      h_bind (h_or_reply r.user_id 401 authentication_required) λ user_id.
        h_bind (h_call (list_by_user-Keeps c user_id cursor (query_limit raw_limit))) λ found.
          h_bind (h_ok_or_reply found 500 (error "failed to load activity")) λ events. h_reply 200 (
            activity (page (query_limit raw_limit) events).0
              (page (query_limit raw_limit) events).1)

  pub get_health-HandlerKeeps : HandlerKeeps P get_health
  unfolding get_health
  get_health-HandlerKeeps = h_reply 200 healthy

  pub get_ready-HandlerKeeps : HandlerKeeps P get_ready
  unfolding get_ready
  get_ready-HandlerKeeps =
      h_bind (h_call c.reads)
        λ ping. h_then (h_ok_or_reply ping 503 (error "database unavailable")) (h_reply 200 ready)

module _ {P : Db → Type 0} (c : Closed P) (p : Primitives) (r : Request) where
  item_created-HandlerKeeps :
      (user_id : ℕ) (type : Bytes) (created : Result VaultItem)
      → HandlerKeeps P (item_created p r user_id type created)
  unfolding item_created
  item_created-HandlerKeeps user_id type created =
      h_bind (h_ok_or_reply created 500 (error "failed to create item")) λ row.
        h_then
          (record_event-HandlerKeeps c p r (some user_id) item_create (some row.id)
            (of_item_type type))
          (h_reply 201 (item row))

  pub create_item-HandlerKeeps :
      (decoded : Option NewItem) → HandlerKeeps P (create_item p r decoded)
  unfolding create_item
  create_item-HandlerKeeps decoded =
      h_bind (h_or_reply r.user_id 403 authentication_required) λ user_id.
        h_bind (h_or_reply decoded 400 bad_body) λ body.
          h_then (validate_ciphertext-HandlerKeeps p body.ciphertext) (
            h_then (h_reply_if (not (is_item_type body.item_type)) 400 (error "invalid item_type"))
              (h_bind (h_call (create_item-Keeps c user_id body.ciphertext body.item_type))
                (item_created-HandlerKeeps user_id body.item_type)))

  item_updated-HandlerKeeps :
      (user_id : ℕ) (updated : Result VaultItem) → HandlerKeeps P (item_updated p r user_id updated)
  unfolding item_updated
  item_updated-HandlerKeeps user_id (ok row) =
      h_then
        (record_event-HandlerKeeps c p r (some user_id) item_update (some row.id)
          (of_revision row.revision))
        (h_reply 200 (item row))
  item_updated-HandlerKeeps user_id (err not_found) = h_reply _ _
  item_updated-HandlerKeeps user_id (err conflict) = h_reply _ _
  item_updated-HandlerKeeps user_id (err e) = h_reply _ _

  pub update_item-HandlerKeeps :
      (id : ℕ) (decoded : Option UpdateItem) → HandlerKeeps P (update_item p r id decoded)
  unfolding update_item
  update_item-HandlerKeeps id decoded =
      h_bind (h_or_reply r.user_id 403 authentication_required) λ user_id.
        h_bind (h_or_reply decoded 400 bad_body) λ body.
          h_then (validate_ciphertext-HandlerKeeps p body.ciphertext) (
            h_then
              (h_reply_if (ltb body.current_revision 1) 400 (error "current_revision must be >= 1"))
              (h_then
                (h_reply_if (not (is_item_type_or_absent body.item_type)) 400
                  (error "invalid item_type"))
                (h_bind
                  (h_call (
                    update_item-Keeps c id user_id body.current_revision body.ciphertext
                      (type_or_empty body.item_type)))
                  (item_updated-HandlerKeeps user_id))))

  item_removed-HandlerKeeps :
      (id user_id : ℕ) (removed : Result (Unit {0}))
      → HandlerKeeps P (item_removed p r id user_id removed)
  unfolding item_removed
  item_removed-HandlerKeeps id user_id (ok u) =
      h_then (record_event-HandlerKeeps c p r (some user_id) item_delete (some id) no_metadata)
        (h_reply 204 no_body)
  item_removed-HandlerKeeps id user_id (err not_found) = h_reply _ _
  item_removed-HandlerKeeps id user_id (err e) = h_reply _ _

  pub delete_item-HandlerKeeps : (id : ℕ) → HandlerKeeps P (delete_item p r id)
  unfolding delete_item
  delete_item-HandlerKeeps id = h_bind (h_or_reply r.user_id 403 authentication_required) λ user_id.
      h_bind (h_call (delete_item-Keeps c id user_id)) (item_removed-HandlerKeeps id user_id)

  sync_user-HandlerKeeps :
      (user_id : ℕ) (found : Result User) → HandlerKeeps P (sync_user p user_id found)
  unfolding sync_user
  sync_user-HandlerKeeps user_id (ok user) = h_bind (h_call (list_items-Keeps c user_id)) λ found.
      h_bind (h_ok_or_reply found 500 (error "failed to load items")) λ rows.
        h_bind (h_or_reply (p.kdf_of_json user.kdf_params) 500 (error "failed to load user params"))
          λ params. h_reply 200 (
            sync user.protected_symmetric_key params user.totp_enabled user.protected_totp_secret
              rows)
  sync_user-HandlerKeeps user_id (err not_found) = h_reply _ _
  sync_user-HandlerKeeps user_id (err e) = h_reply _ _

  pub get_sync-HandlerKeeps : HandlerKeeps P (get_sync p r)
  unfolding get_sync
  get_sync-HandlerKeeps =
      h_bind (h_or_reply r.user_id 403 authentication_required)
        λ user_id. h_bind (h_call (get_by_id-Keeps c user_id)) (sync_user-HandlerKeeps user_id)
