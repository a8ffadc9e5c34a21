-- ===== src/Auth/Session/Race.antt =====
-- Two refreshes of one token at once, internal/auth/session.go RefreshSession: both look the session up
-- before either rotates its tokens.
use go_vault.Prelude.{Bytes, add_duration}
use go_vault.Errors.{Result, err, ok}
use go_vault.Primitives.{Primitives}
use go_vault.Storage.Db.{Session, Db}
use go_vault.Storage.Sessions.{tokens}
use go_vault.Auth.Manager.{Manager}
use go_vault.Auth.Session.{rotate}

module _ (p : Primitives) (m : Manager) where
  -- The rows after a rotation.
  abbrev renewed : Db → Bytes → Bytes → Session → Session
  renewed db access refresh =
      tokens (p.sha256 access) (add_duration db.now m.access_ttl) (p.sha256 refresh)
        (add_duration db.now m.refresh_ttl)

  abbrev after_lookup : Result Session × Db → Result (Bytes × Bytes) × Db
  after_lookup (r, db) = elim r [ ok t ↦ rotate p m t db | err e ↦ (err e, db) ]
