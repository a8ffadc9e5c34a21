-- ===== src/Api/Reply/Recording.antt =====
-- What recordEvent of internal/api/audit.go and the steps like it leave alone.
use go_vault.Prelude.{ℕ, ◌≡◌, Option, none, some, arith, Bytes}
use go_vault.Primitives.{Primitives}
use go_vault.Storage.Db.{Db, EventType, login_success, login_failure, Metadata}
use go_vault.Storage.Audit.{append, record_device_hash}
use go_vault.Alerts.{reset_failures, hash_user_agent}
use go_vault.Api.Server.{Request, Server, next, client_ip}
use go_vault.Api.Reply.{record_event, follow_up, note_device}

-- Every table but the audit log and the devices, and the clock and the failures, which nothing
-- changes.
pub record SameVault (a b : Db) : Type 0 where
  pub users : b.users ≡ a.users
  pub sessions : b.sessions ≡ a.sessions
  pub items : b.items ≡ a.items
  pub recovery_codes : b.recovery_codes ≡ a.recovery_codes
  pub challenges : b.challenges ≡ a.challenges
  pub now : b.now ≡ a.now
  pub outage : b.outage ≡ a.outage

pub record Recorded (s t : Server) : Type 0 where
  pub vault : SameVault s.db t.db
  pub auth : t.auth ≡ s.auth
  pub cookies : t.cookies ≡ s.cookies
  pub slept : t.slept ≡ s.slept

append-SameVault :
    (db : Db) (user_id : Option ℕ) (e : EventType) (ip : Option Bytes) (ua : Bytes)
    (resource : Option ℕ) (meta : Metadata)
    → SameVault db (append user_id e ip ua resource meta db).1
unfolding append
append-SameVault db user_id e ip ua resource meta = ground arith

device-SameVault :
    (db : Db) (id : ℕ) (hash : Bytes) → SameVault db (record_device_hash id hash db).1
unfolding record_device_hash
device-SameVault db id hash = ground arith

note_device-Recorded :
    (s : Server) (id : ℕ) (ua : Bytes) (hash : Option Bytes) (p : Primitives)
    → ((note_device p id ua hash s).0 ≡ next tt) × Recorded s (note_device p id ua hash s).1
unfolding note_device
note_device-Recorded s id ua none p = ground arith
note_device-Recorded s id ua (some hash) p = ground (arith, device-SameVault s.db id hash)

module _ (p : Primitives) (r : Request) where
  follow_up-Recorded :
      (user_id : Option ℕ) (e : EventType) (s : Server)
      → ((follow_up p r user_id e s).0 ≡ next tt) × Recorded s (follow_up p r user_id e s).1
  unfolding follow_up
  follow_up-Recorded none e s = ground arith
  follow_up-Recorded (some id) login_failure s = ground arith
  follow_up-Recorded (some id) login_success s = ground (
    arith,
    note_device-Recorded (record s { alerts = reset_failures s.alerts id }) id r.user_agent
        (hash_user_agent p r.user_agent) p,
  )
  follow_up-Recorded (some id) e s = ground arith

  -- It answers nothing, and changes only the audit log, the devices, the alerts and the notices.
  pub record_event-Recorded :
      (user_id : Option ℕ) (e : EventType) (resource : Option ℕ) (meta : Metadata) (s : Server)
      → ((record_event p r user_id e resource meta s).0 ≡ next tt)
        × Recorded s (record_event p r user_id e resource meta s).1
  unfolding record_event
  record_event-Recorded user_id e resource meta s = ground (
    arith,
    append-SameVault s.db user_id e (p.parse_ip (client_ip p r)) r.user_agent resource meta,
    follow_up-Recorded user_id e (logged user_id e resource meta s),
  )
    where
      logged : Option ℕ → EventType → Option ℕ → Metadata → Server → Server
      logged user_id e resource meta s = record s {
        db = (append user_id e (p.parse_ip (client_ip p r)) r.user_agent resource meta s.db).1;
      }
