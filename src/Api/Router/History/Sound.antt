-- ===== src/Api/Router/History/Sound.antt =====
-- The constraints of db/schema.sql through any history of the server.
use go_vault.Prelude.{List, arith}
use go_vault.Primitives.{Primitives}
use go_vault.Storage.Sound.{IsSound}
use go_vault.Storage.Sound.Changes.{later}
use go_vault.Storage.Sound.Closed.{IsSound-Closed}
use go_vault.Api.Server.{Server}
use go_vault.Api.Router.History.{Act, run, Steady, run-keeps}

pub IsSound-Steady : Steady IsSound
IsSound-Steady = record {
  closed = IsSound-Closed;
  world = λ db now outage entropy h.
      later db db.next_id now outage db.queries entropy db.draws (omega arith) h;
}

-- Through any requests to any routes, failures, restarts and lapses of time, tables that meet the
-- constraints of the schema go on to meet them: in each table but devices the ids are distinct and
-- were given out, no two users share an email, no two sessions an access hash or a refresh hash, no
-- two challenges a hash, a row that belongs to a user belongs to one that is there, and every item
-- has a type of the schema and a revision from 1 to 2147483647.
pub run-IsSound :
    (p : Primitives) (acts : List Act) (s : Server) → IsSound s.db → IsSound (run p acts s).db
run-IsSound p acts s h = run-keeps IsSound-Steady p acts s h
