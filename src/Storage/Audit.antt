-- ===== src/Storage/Audit.antt =====
-- internal/storage/audit.go over internal/storage/sqlcgen/audit.sql.go.
use go_vault.Prelude.{
  ℕ, ◌+◌, ◌*◌, Bool, true, false, not, ◌&&◌, ◌||◌, List, [], ◌∷◌, ◌++◌, Option, none, some,
  if◌then◌else◌, Bytes, ◌==◌, ltb, bytes_eq, find, filter, sort_desc, take, length,
}
use go_vault.Errors.{no_rows, not_found, foreign_key_violation, Result, ok, err}
use go_vault.Storage.Db.{
  EventType, login_failure, Metadata, AuditEvent, Device, User, Query, ◌>>=◌, ◌>>◌, pure, gets, try,
  of_result, modify, guard, statement, fresh_id, user_exists,
}

abbrev pub may_refer : List User → Option ℕ → Bool
may_refer users none = true
may_refer users (some id) = user_exists users id

-- The column user_id may be NULL, and refers to a user otherwise.
unfoldable pub append_audit_event :
    Option ℕ → EventType → Option Bytes → Option Bytes → Option ℕ → Metadata → Query AuditEvent
unfolding statement
append_audit_event user_id event_type ip user_agent resource_id metadata = do
  statement
  users ← gets (λ db. db.users)
  guard (may_refer users user_id) foreign_key_violation
  id ← fresh_id
  now ← gets (λ db. db.now)
  let row = new_row id now
  modify (λ db. record db { audit_events = db.audit_events ++ row ∷ [] })
  pure row
  where
    new_row : ℕ → ℕ → AuditEvent
    new_row id now = record {
      id = id;
      user_id = user_id;
      event_type = event_type;
      ip = ip;
      user_agent = user_agent;
      resource_id = resource_id;
      metadata = metadata;
      created_at = now;
    }

abbrev pub belongs_to : ℕ → AuditEvent → Bool
belongs_to id ev = elim ev.user_id [ none ↦ false | some uid ↦ uid == id ]

-- `created_at < (SELECT created_at …)`, which is NULL, and so false, if the cursor is not there.
abbrev pub before : List AuditEvent → Option ℕ → AuditEvent → Bool
before rows none ev = true
before rows (some cursor) ev = elim (find (λ c. c.id == cursor) rows) [
  | none ↦ false
  | some c ↦ ltb ev.created_at c.created_at
]

-- The events of a user below the cursor, the newest first.
abbrev pub timeline : ℕ → Option ℕ → List AuditEvent → List AuditEvent
timeline user_id cursor rows =
    sort_desc (λ ev. ev.created_at)
      (filter (λ ev. belongs_to user_id ev && before rows cursor ev) rows)

unfoldable pub list_audit_events_by_user : ℕ → Option ℕ → ℕ → Query (List AuditEvent)
unfolding statement
list_audit_events_by_user user_id cursor limit = do
  statement
  gets (λ db. take limit (timeline user_id cursor db.audit_events))

abbrev pub is_login_failure : EventType → Bool
is_login_failure login_failure = true
is_login_failure e = false

-- `created_at > NOW() - INTERVAL '15 minutes'`
abbrev pub is_recent_failure : ℕ → ℕ → AuditEvent → Bool
is_recent_failure id now ev =
    belongs_to id ev && is_login_failure ev.event_type && ltb now (ev.created_at + 15 * 60000000000)

unfoldable pub count_recent_login_failures : ℕ → Query ℕ
unfolding statement
count_recent_login_failures user_id = do
  statement
  gets (λ db. length (filter (is_recent_failure user_id db.now) db.audit_events))

abbrev pub is_device : ℕ → Bytes → Device → Bool
is_device user_id ua_hash d = d.user_id == user_id && bytes_eq d.ua_hash ua_hash

abbrev pub is_known : Option Device → Bool
is_known none = false
is_known (some d) = true

-- ON CONFLICT DO NOTHING returns no row.
unfoldable pub insert_device_hash : ℕ → Bytes → Query ℕ
unfolding statement
insert_device_hash user_id ua_hash = do
  statement
  seen ← gets (λ db. find (is_device user_id ua_hash) db.devices)
  guard (not (is_known seen)) no_rows
  users ← gets (λ db. db.users)
  guard (user_exists users user_id) foreign_key_violation
  modify (λ db. record db {
    devices = db.devices ++ record { user_id = user_id; ua_hash = ua_hash } ∷ [];
  })
  pure user_id

-- The repository.

abbrev pub non_empty : Bytes → Option Bytes
non_empty [] = none
non_empty (c ∷ cs) = some (c ∷ cs)

unfoldable pub append :
    Option ℕ → EventType → Option Bytes → Bytes → Option ℕ → Metadata → Query AuditEvent
unfolding append_audit_event
append user_id event_type ip user_agent resource_id metadata =
    append_audit_event user_id event_type ip (non_empty user_agent) resource_id metadata

-- auditLimit of convert.go. A limit is an int: the handlers pass no negative one.
unfoldable pub audit_limit : ℕ → ℕ
audit_limit limit = if limit == 0 || ltb 100 limit then 50 else limit

unfoldable pub list_by_user : ℕ → Option ℕ → ℕ → Query (List AuditEvent)
unfolding audit_limit list_audit_events_by_user
list_by_user user_id cursor limit = list_audit_events_by_user user_id cursor (audit_limit limit + 1)

-- True when the hash is first seen.
unfoldable pub record_device_hash : ℕ → Bytes → Query Bool
unfolding insert_device_hash
record_device_hash user_id ua_hash = do
  r ← try (insert_device_hash user_id ua_hash)
  of_result (first_seen r)
  where
    first_seen : Result ℕ → Result Bool
    first_seen (ok id) = ok true
    first_seen (err no_rows) = ok false
    first_seen (err not_found) = ok false
    first_seen (err e) = err e
