-- ===== src/Api/Router/History.antt =====
-- Histories of the server of cmd/server/main.go: requests to any route, and between them what the
-- world does. Time goes on, the database fails and comes back, crypto/rand gives what it gives, and
-- the process is restarted with the lifetimes of its settings, which loses the limiters, the lockouts
-- and the alerts and keeps the tables.
pub mod Sound
pub mod Gone
use go_vault.Prelude.{ℕ, ℤ, ◌+◌, Bool, List, [], ◌∷◌, Option, Bytes}
use go_vault.Primitives.{Primitives}
use go_vault.Auth.Manager.{new_manager}
use go_vault.Storage.Db.{Db}
use go_vault.Storage.Closed.{Closed}
use go_vault.Api.Server.{Request, Server, new_server}
use go_vault.Api.Router.{Endpoint, serve}
use go_vault.Api.Router.Keeps.{serve-keeps}

pub data Act : Type 0 where
  asks : Endpoint → Request → Act
  waits : ℕ → Act
  suffers : (ℕ → Bool) → Act
  reseeds : (ℕ → ℕ → Option Bytes) → Act
  restarts : ℤ → ℤ → Act

unfoldable pub step : Primitives → Act → Server → Server
unfolding serve new_server new_manager
step p (asks e r) s = (serve p e r s).1
step p (waits time) s = record s { db = record s.db { now = s.db.now + time } }
step p (suffers outage) s = record s { db = record s.db { outage = outage } }
step p (reseeds entropy) s = record s { db = record s.db { entropy = entropy } }
step p (restarts access_ttl refresh_ttl) s = new_server s.db (new_manager access_ttl refresh_ttl)

unfoldable pub run : Primitives → List Act → Server → Server
unfolding step
run p [] s = s
run p (act ∷ acts) s = run p acts (step p act s)

-- A property of the tables that neither a statement nor the world ends.
pub record Steady (P : Db → Type 0) : Type 0 where
  pub closed : Closed P
  pub world :
      (db : Db) (now : ℕ) (outage : ℕ → Bool) (entropy : ℕ → ℕ → Option Bytes)
      → P db
      → P (record db { now = now; outage = outage; entropy = entropy })

module _ {P : Db → Type 0} (c : Steady P) (p : Primitives) where
  step-keeps : (act : Act) (s : Server) → P s.db → P (step p act s).db
  unfolding step new_server
  step-keeps (asks e r) s h = serve-keeps c.closed p e r s h
  step-keeps (waits time) s h = c.world s.db (s.db.now + time) s.db.outage s.db.entropy h
  step-keeps (suffers outage) s h = c.world s.db s.db.now outage s.db.entropy h
  step-keeps (reseeds entropy) s h = c.world s.db s.db.now s.db.outage entropy h
  step-keeps (restarts access_ttl refresh_ttl) s h = h

  pub run-keeps : (acts : List Act) (s : Server) → P s.db → P (run p acts s).db
  unfolding run
  run-keeps [] s h = h
  run-keeps (act ∷ acts) s h = run-keeps acts (step p act s) (step-keeps act s h)
