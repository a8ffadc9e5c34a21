-- ===== src/Storage/Sound/Audit.antt =====
-- The statements of internal/storage/sqlcgen/audit.sql.go against the constraints of db/schema.sql.
use go_vault.Prelude.{ℕ, suc, ◌≡◌, refl, true, [], ◌∷◌, ◌++◌, Option, arith, Bytes}
use go_vault.Storage.Db.{AuditEvent, EventType, Metadata, Device, Db, user_exists}
use go_vault.Storage.Audit.{may_refer, append_audit_event, insert_device_hash}
use go_vault.Storage.Keeps.{Keeps}
use go_vault.Storage.Rows.{Every-append}
use go_vault.Storage.Sound.{table_append, has_user, IsSound}
use go_vault.Storage.Sound.Changes.{with_events, with_devices}
use go_vault.Storage.Sound.Statements.{same}

adds_event :
    (db : Db) (queries : ℕ) (x : AuditEvent)
    → x.id ≡ db.next_id
    → may_refer db.users x.user_id ≡ true
    → IsSound db
    → IsSound (record db {
      audit_events = db.audit_events ++ x ∷ [];
      queries = queries;
      next_id = suc db.next_id;
    })
adds_event db queries x e h s =
    with_events db queries (suc db.next_id) (omega arith) s (db.audit_events ++ x ∷ [])
      (table_append x e h s.events)

adds_device :
    (db : Db) (queries : ℕ) (x : Device)
    → user_exists db.users x.user_id ≡ true
    → IsSound db
    → IsSound (record db { devices = db.devices ++ x ∷ []; queries = queries })
adds_device db queries x h s =
    with_devices db queries db.next_id (omega arith) s (db.devices ++ x ∷ [])
      (Every-append (has_user db.users) db.devices x s.devices h)

pub append_event-IsSound :
    (id : Option ℕ) (e : EventType) (ip ua : Option Bytes) (resource : Option ℕ) (meta : Metadata)
    → Keeps IsSound (append_audit_event id e ip ua resource meta)
unfolding append_audit_event
append_event-IsSound id e ip ua resource meta = record {
  at = λ db s.
      let row : AuditEvent = record {
        id = db.next_id;
        user_id = id;
        event_type = e;
        ip = ip;
        user_agent = ua;
        resource_id = resource;
        metadata = meta;
        created_at = db.now;
      } in
      ground (arith, same db (suc db.queries) s, adds_event db (suc db.queries) row refl, s);
}

pub insert_device-IsSound : (id : ℕ) (hash : Bytes) → Keeps IsSound (insert_device_hash id hash)
unfolding insert_device_hash
insert_device-IsSound id hash = record {
  at = λ db s.
      let row : Device = record { user_id = id; ua_hash = hash } in
      ground (arith, same db (suc db.queries) s, adds_device db (suc db.queries) row, s);
}
