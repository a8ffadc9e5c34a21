-- ===== src/Startup.antt =====
-- cmd/server/main.go, with New and Close of internal/storage/store.go. What a run does is the list of its
-- events. The database, the listener and the signals are parameters.
pub mod Lifecycle
use go_vault.Prelude.{
  ℕ, Bool, true, false, not, List, [], ◌∷◌, ◌++◌, Option, none, some, if◌then◌else◌, Bytes,
}
use go_vault.Config.{Config, Platform, LoadError, Loaded, failed, loaded, load}

-- How `select` ends: the listener failed, or a signal came.
pub data Waited : Type 0 where
  listener_failed signalled : Waited

pub record Host : Type 0 where
  -- whether pgxpool.New takes the DSN, and the database answers the ping
  pub opens_pool : Bytes → Bool
  pub answers : Bool
  pub waited : Waited
  -- whether Shutdown is done within its 10 seconds
  pub shuts_down : Bool

pub data Event : Type 0 where
  pool_opened pinged pool_closed : Event
  listening : Config → Event
  shutting_down signals_released : Event

pub data RunError : Type 0 where
  invalid_configuration : LoadError → RunError
  database server_error graceful_shutdown_failed : RunError

-- The error that run returns, if any, and what it did.
abbrev pub Run : Type 0
Run = Option RunError × List Event

abbrev pub before : List Event → Run → Run
before events (e, later) = (e, events ++ later)

-- `defer`, for the rest of the function.
abbrev pub deferring : Event → Run → Run
deferring event (e, events) = (e, events ++ event ∷ [])

-- storage.New: whether there is a store.
unfoldable pub new_store : Host → Bytes → Bool × List Event
new_store h dsn =
    if not (h.opens_pool dsn)
    then (false, [])
    else if not h.answers
    then (false, pool_opened ∷ pinged ∷ pool_closed ∷ [])
    else (true, pool_opened ∷ pinged ∷ [])

abbrev pub after_wait : Host → Waited → Run
after_wait h listener_failed = (some server_error, [])
after_wait h signalled =
    (if h.shuts_down then none else some graceful_shutdown_failed, shutting_down ∷ [])

abbrev pub with_store : Host → Config → Bool × List Event → Run
with_store h cfg (false, events) = (some database, events)
with_store h cfg (true, events) =
    before events (deferring pool_closed (before (listening cfg ∷ []) (after_wait h h.waited)))

abbrev pub configured : Host → Loaded Config → Run
configured h (failed e) = (some (invalid_configuration e), [])
configured h (loaded cfg) =
    deferring signals_released (with_store h cfg (new_store h cfg.database_dsn))

unfoldable pub run : Host → Platform → Run
unfolding load new_store
run h os = configured h (load os)

-- os.Exit of main.
unfoldable pub exit_status : Run → ℕ
exit_status (none, events) = 0
exit_status (some e, events) = 1
