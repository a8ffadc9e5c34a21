-- ===== src/Storage/Closed.antt =====
-- What a property of the tables owes the statements of internal/storage/sqlcgen, and what the
-- repositories of internal/storage then keep.
use go_vault.Prelude.{ℕ, ◌≡◌, arith, Bool, List, Option, none, some, Bytes, find, ℤ}
use go_vault.Errors.{no_rows, Result, ok, err}
use go_vault.Storage.Db.{
  EventType, Metadata, RecoveryCode, VaultItem, Db, Query, statement, random_bytes,
}
use go_vault.Storage.Users
use go_vault.Storage.Sessions
use go_vault.Storage.Items
use go_vault.Storage.Mfa
use go_vault.Storage.Audit
use go_vault.Storage.Keeps.{
  Keeps, kept_rules, kept_bind, kept_or_not_found, kept_try, kept_of_result,
}

-- Every statement that the handlers reach keeps the property.
pub record Closed (P : Db → Type 0) : Type 0 where
  pub reads : Keeps P statement
  pub draws : (size : ℕ) → Keeps P (random_bytes size)
  pub creates_user :
      (email kdf hash salt key : Bytes) → Keeps P (Users.create_user email kdf hash salt key)
  pub updates_user :
      (id : ℕ) (hash salt kdf key : Bytes)
      → Keeps P (Users.update_user_auth_credentials id hash salt kdf key)
  pub deletes_user : (id : ℕ) → Keeps P (Users.delete_user_rows id)
  pub creates_session :
      (id : ℕ) (a : Bytes) (at : ℤ) (r : Bytes) (rt : ℤ)
      → Keeps P (Sessions.create_session_pair id a at r rt)
  pub rotates_session :
      (id : ℕ) (a : Bytes) (at : ℤ) (r : Bytes) (rt : ℤ)
      → Keeps P (Sessions.rotate_session_tokens id a at r rt)
  pub deletes_session : (hash : Bytes) → Keeps P (Sessions.delete_session_by_access_hash hash)
  pub deletes_sessions : (id : ℕ) → Keeps P (Sessions.delete_all_sessions_for_user id)
  pub creates_item : (id : ℕ) (text type : Bytes) → Keeps P (Items.create_item id text type)
  pub updates_item :
      (id user_id rev : ℕ) (text : Bytes) (type : Option Bytes)
      → Keeps P (Items.update_item id user_id rev text type)
  pub deletes_item : (id user_id : ℕ) → Keeps P (Items.delete_item id user_id)
  pub enables_totp : (id : ℕ) (secret : Bytes) → Keeps P (Mfa.enable_user_totp id secret)
  pub disables_totp : (id : ℕ) → Keeps P (Mfa.disable_user_totp id)
  pub deletes_codes : (id : ℕ) → Keeps P (Mfa.delete_recovery_codes_for_user id)
  pub replaces_codes :
      (id : ℕ) (hashes : List Bytes) → Keeps P (Mfa.replace_recovery_codes id hashes)
  pub marks_code : (id : ℕ) → Keeps P (Mfa.mark_recovery_code_used id)
  pub creates_challenge :
      (id : ℕ) (hash : Bytes) (at : ℕ) → Keeps P (Mfa.create_mfa_challenge id hash at)
  pub consumes_challenge : (hash : Bytes) → Keeps P (Mfa.consume_mfa_challenge hash)
  pub appends_event :
      (id : Option ℕ) (e : EventType) (ip ua : Option Bytes) (resource : Option ℕ) (meta : Metadata)
      → Keeps P (Audit.append_audit_event id e ip ua resource meta)
  pub inserts_device : (id : ℕ) (hash : Bytes) → Keeps P (Audit.insert_device_hash id hash)

-- A query that reads: whatever it answers, it leaves the tables as its one statement does.
module _ {P : Db → Type 0} {A : Type 0} (c : Closed P) where
  kept_read : (q : Query A) → ((db : Db) → (q db).1 ≡ (statement db).1) → Keeps P q
  kept_read q same = record { at = λ db h. rw (same db) (c.reads.at db h) }

module _ {P : Db → Type 0} (c : Closed P) where
  pub get_by_id-Keeps : (id : ℕ) → Keeps P (Users.get_by_id id)
  unfolding Users.get_by_id
  get_by_id-Keeps id = kept_read c (Users.get_by_id id) (λ db. ground arith)

  pub get_by_email-Keeps : (email : Bytes) → Keeps P (Users.get_by_email email)
  unfolding Users.get_by_email
  get_by_email-Keeps email = kept_read c (Users.get_by_email email) (λ db. ground arith)

  pub create_user-Keeps :
      (email kdf hash salt key : Bytes) → Keeps P (Users.create email kdf hash salt key)
  unfolding Users.create
  create_user-Keeps email kdf hash salt key = c.creates_user email kdf hash salt key

  pub update_auth_credentials-Keeps :
      (id : ℕ) (hash salt kdf key : Bytes)
      → Keeps P (Users.update_auth_credentials id hash salt kdf key)
  unfolding Users.update_auth_credentials
  update_auth_credentials-Keeps id hash salt kdf key =
      kept_or_not_found (Users.update_user_auth_credentials id hash salt kdf key)
        (c.updates_user id hash salt kdf key)

  pub delete_user-Keeps : (id : ℕ) → Keeps P (Users.delete_user id)
  unfolding Users.delete_user
  delete_user-Keeps id = search (kept_rules, c.deletes_user)

  pub get_by_access_hash-Keeps : (hash : Bytes) → Keeps P (Sessions.get_by_access_hash hash)
  unfolding Sessions.get_by_access_hash
  get_by_access_hash-Keeps hash =
      kept_read c (Sessions.get_by_access_hash hash) (λ db. ground arith)

  pub get_by_refresh_hash-Keeps : (hash : Bytes) → Keeps P (Sessions.get_by_refresh_hash hash)
  unfolding Sessions.get_by_refresh_hash
  get_by_refresh_hash-Keeps hash =
      kept_read c (Sessions.get_by_refresh_hash hash) (λ db. ground arith)

  pub list_items-Keeps : (id : ℕ) → Keeps P (Items.list id)
  unfolding Items.list Items.list_items
  list_items-Keeps id = search (kept_rules, c.reads)

  item_exists-Keeps : (id user_id : ℕ) → Keeps P (Items.item_exists id user_id)
  unfolding Items.item_exists
  item_exists-Keeps id user_id = kept_read c (Items.item_exists id user_id) (λ db. ground arith)

  resolve_update-Keeps :
      (id user_id : ℕ) (r : Result VaultItem) → Keeps P (Items.resolve_update id user_id r)
  unfolding Items.resolve_update
  resolve_update-Keeps id user_id (ok item) = search kept_rules
  resolve_update-Keeps id user_id (err no_rows) = search (kept_rules, item_exists-Keeps)
  resolve_update-Keeps id user_id (err e) = search kept_rules

  pub update_item-Keeps :
      (id user_id rev : ℕ) (text type : Bytes) → Keeps P (Items.update id user_id rev text type)
  unfolding Items.update
  update_item-Keeps id user_id rev text type = kept_bind (kept_of_result _) λ rev'.
      kept_bind
        (kept_try (Items.update_item id user_id rev' text (Items.item_type_arg type))
          (c.updates_item id user_id rev' text (Items.item_type_arg type)))
        (resolve_update-Keeps id user_id)

  pub delete_item-Keeps : (id user_id : ℕ) → Keeps P (Items.delete id user_id)
  unfolding Items.delete
  delete_item-Keeps id user_id = search (kept_rules, c.deletes_item)

  pub enable_totp-Keeps : (id : ℕ) (secret : Bytes) → Keeps P (Mfa.enable_totp id secret)
  unfolding Mfa.enable_totp
  enable_totp-Keeps id secret = search (kept_rules, c.enables_totp)

  pub disable_totp-Keeps : (id : ℕ) → Keeps P (Mfa.disable_totp id)
  unfolding Mfa.disable_totp
  disable_totp-Keeps id = search (kept_rules, c.disables_totp, c.deletes_codes)

  pub get_totp_status-Keeps : (id : ℕ) → Keeps P (Mfa.get_totp_status id)
  unfolding Mfa.get_totp_status
  get_totp_status-Keeps id = kept_read c (Mfa.get_totp_status id) (λ db. ground arith)

  list_unused-Keeps : (id : ℕ) → Keeps P (Mfa.list_unused_recovery_codes id)
  unfolding Mfa.list_unused_recovery_codes
  list_unused-Keeps id = kept_read c (Mfa.list_unused_recovery_codes id) (λ db. ground arith)

  mark_found-Keeps : (found : Option RecoveryCode) → Keeps P (Mfa.mark_found found)
  unfolding Mfa.mark_found
  mark_found-Keeps none = search kept_rules
  mark_found-Keeps (some code) = search (kept_rules, c.marks_code)

  pub consume_recovery_code-Keeps :
      (id : ℕ) (matches : Bytes → Bool) → Keeps P (Mfa.consume_recovery_code id matches)
  unfolding Mfa.consume_recovery_code
  consume_recovery_code-Keeps id matches =
      kept_bind (list_unused-Keeps id)
        (λ codes. mark_found-Keeps (find (λ code. matches code.code_hash) codes))

  pub create_challenge-Keeps :
      (id : ℕ) (hash : Bytes) (at : ℕ) → Keeps P (Mfa.create_challenge id hash at)
  unfolding Mfa.create_challenge
  create_challenge-Keeps id hash at = c.creates_challenge id hash at

  pub consume_challenge-Keeps : (hash : Bytes) → Keeps P (Mfa.consume_challenge hash)
  unfolding Mfa.consume_challenge
  consume_challenge-Keeps hash =
      kept_or_not_found (Mfa.consume_mfa_challenge hash) (c.consumes_challenge hash)

  pub append-Keeps :
      (id : Option ℕ) (e : EventType) (ip : Option Bytes) (ua : Bytes) (resource : Option ℕ)
      (meta : Metadata)
      → Keeps P (Audit.append id e ip ua resource meta)
  unfolding Audit.append
  append-Keeps id e ip ua resource meta = c.appends_event id e ip (Audit.non_empty ua) resource meta

  pub list_by_user-Keeps :
      (id : ℕ) (cursor : Option ℕ) (limit : ℕ) → Keeps P (Audit.list_by_user id cursor limit)
  unfolding Audit.list_by_user Audit.list_audit_events_by_user
  list_by_user-Keeps id cursor limit = search (kept_rules, c.reads)

  pub record_device_hash-Keeps :
      (id : ℕ) (hash : Bytes) → Keeps P (Audit.record_device_hash id hash)
  unfolding Audit.record_device_hash
  record_device_hash-Keeps id hash = record {
    at = λ db h. rw (same db) ((c.inserts_device id hash).at db h);
  }
    where
      same :
          (db : Db)
          → (Audit.record_device_hash id hash db).1 ≡ (Audit.insert_device_hash id hash db).1
      same db = ground arith
