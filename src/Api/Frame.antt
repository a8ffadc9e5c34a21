-- ===== src/Api/Frame.antt =====
-- What a handler leaves alone.
use go_vault.Prelude.{◌≡◌}
use go_vault.Storage.Db.{Db}
use go_vault.Api.Server.{Server}

-- No table has changed.
pub record SameTables (a b : Db) : Type 0 where
  pub users : b.users ≡ a.users
  pub sessions : b.sessions ≡ a.sessions
  pub items : b.items ≡ a.items
  pub recovery_codes : b.recovery_codes ≡ a.recovery_codes
  pub challenges : b.challenges ≡ a.challenges
  pub audit_events : b.audit_events ≡ a.audit_events
  pub devices : b.devices ≡ a.devices

-- Nor has anything that the server keeps in memory.
pub record Untouched (s t : Server) : Type 0 where
  pub tables : SameTables s.db t.db
  pub auth : t.auth ≡ s.auth
  pub alerts : t.alerts ≡ s.alerts
  pub notices : t.notices ≡ s.notices
