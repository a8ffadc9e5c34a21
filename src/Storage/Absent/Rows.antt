-- ===== src/Storage/Absent/Rows.antt =====
-- The statements on sessions, items, audit events and devices, where a user is absent.
use go_vault.Prelude.{ℕ, Option, arith, Bytes, ℤ}
use go_vault.Storage.Db.{EventType, Metadata}
use go_vault.Storage.Sessions.{
  create_session_pair, rotate_session_tokens, delete_session_by_access_hash,
  delete_all_sessions_for_user,
}
use go_vault.Storage.Items.{create_item, update_item, delete_item}
use go_vault.Storage.Audit.{append_audit_event, insert_device_hash}
use go_vault.Storage.Keeps.{Keeps}
use go_vault.Storage.Absent.{IsAbsent}

module _ (id : ℕ) where
  pub create_session_pair-IsAbsent :
      (k : ℕ) (a : Bytes) (at : ℤ) (r : Bytes) (rt : ℤ)
      → Keeps (IsAbsent id) (create_session_pair k a at r rt)
  unfolding create_session_pair
  create_session_pair-IsAbsent k a at r rt = record {
    at = λ db h. ground (arith, h.given, h.absent);
  }

  pub rotate_session_tokens-IsAbsent :
      (k : ℕ) (a : Bytes) (at : ℤ) (r : Bytes) (rt : ℤ)
      → Keeps (IsAbsent id) (rotate_session_tokens k a at r rt)
  unfolding rotate_session_tokens
  rotate_session_tokens-IsAbsent k a at r rt = record {
    at = λ db h. ground (arith, h.given, h.absent);
  }

  pub delete_by_access-IsAbsent :
      (hash : Bytes) → Keeps (IsAbsent id) (delete_session_by_access_hash hash)
  unfolding delete_session_by_access_hash
  delete_by_access-IsAbsent hash = record { at = λ db h. ground (arith, h.given, h.absent) }

  pub delete_all_sessions-IsAbsent : (k : ℕ) → Keeps (IsAbsent id) (delete_all_sessions_for_user k)
  unfolding delete_all_sessions_for_user
  delete_all_sessions-IsAbsent k = record { at = λ db h. ground (arith, h.given, h.absent) }

  pub create_item-IsAbsent :
      (k : ℕ) (text type : Bytes) → Keeps (IsAbsent id) (create_item k text type)
  unfolding create_item
  create_item-IsAbsent k text type = record { at = λ db h. ground (arith, h.given, h.absent) }

  pub update_item-IsAbsent :
      (k user_id rev : ℕ) (text : Bytes) (type : Option Bytes)
      → Keeps (IsAbsent id) (update_item k user_id rev text type)
  unfolding update_item
  update_item-IsAbsent k user_id rev text type = record {
    at = λ db h. ground (arith, h.given, h.absent);
  }

  pub delete_item-IsAbsent : (k user_id : ℕ) → Keeps (IsAbsent id) (delete_item k user_id)
  unfolding delete_item
  delete_item-IsAbsent k user_id = record { at = λ db h. ground (arith, h.given, h.absent) }

  pub append_event-IsAbsent :
      (k : Option ℕ) (e : EventType) (ip ua : Option Bytes) (resource : Option ℕ) (meta : Metadata)
      → Keeps (IsAbsent id) (append_audit_event k e ip ua resource meta)
  unfolding append_audit_event
  append_event-IsAbsent k e ip ua resource meta = record {
    at = λ db h. ground (arith, h.given, h.absent);
  }

  pub insert_device-IsAbsent :
      (k : ℕ) (hash : Bytes) → Keeps (IsAbsent id) (insert_device_hash k hash)
  unfolding insert_device_hash
  insert_device-IsAbsent k hash = record { at = λ db h. ground (arith, h.given, h.absent) }
