-- ===== src/Startup/Lifecycle.antt =====
-- The order in which cmd/server/main.go takes and gives back what it uses.
use go_vault.Prelude.{
  ◌≡◌, refl, ◌∙◌, inl, inr, Bool, true, false, ◌&&◌, List, [], ◌∷◌, arith, Bool-cases,
  if◌then◌else◌, All, codes,
}
use go_vault.Config.{Config, Platform, loaded}
use go_vault.Config.Verdict.{Promises, acceptable, load-Verdict}
use go_vault.Config.{os_getenv}
use go_vault.Startup.{
  Waited, listener_failed, signalled, Host, Event, pool_opened, pinged, pool_closed, listening,
  shutting_down, signals_released, deferring, before, new_store, after_wait, configured, run,
  exit_status,
}

-- What is held at a moment.
pub data Phase : Type 0 where
  idle unchecked verified closed serving stopping released broken : Phase

-- A connection pool is verified before the server listens, and outlives the listener and the shutdown.
abbrev pub step : Phase → Event → Phase
step idle pool_opened = unchecked
step idle signals_released = released
step closed signals_released = released
step unchecked pinged = verified
step verified pool_closed = closed
step verified (listening cfg) = serving
step serving shutting_down = stopping
step serving pool_closed = closed
step stopping pool_closed = closed
step phase event = broken

abbrev pub final : Phase → List Event → Phase
final phase [] = phase
final phase (e ∷ es) = final (step phase e) es

-- Everything that was taken has been given back.
abbrev pub is_clean : Phase → Bool
is_clean idle = true
is_clean released = true
is_clean phase = false

abbrev pub WithPromises : Platform → Event → Type 0
WithPromises os (listening cfg) = Promises os cfg
WithPromises os event = Unit

abbrev pub is_signalled : Waited → Bool
is_signalled listener_failed = false
is_signalled signalled = true

-- From a run to its end: it is clean, and what it listened with has the promises.
abbrev pub Clean : Platform → List Event → Type 0
Clean os events = (is_clean (final idle events) ≡ true) × All (WithPromises os) events

-- The database is in order, and the run was ended by a signal and in time.
abbrev pub goes_well : Host → Platform → Bool
goes_well h os =
    acceptable os
    && (h.opens_pool (os_getenv os (codes "DATABASE_URL"))
        && (h.answers && (is_signalled h.waited && h.shuts_down)))

module _ (h : Host) (os : Platform) (cfg : Config) (promises : Promises os cfg) where
  verified-Clean :
      (w : Waited)
      → Clean os
          (deferring signals_released (
            before
              (pool_opened ∷ pinged ∷ [])
              (deferring pool_closed (before (listening cfg ∷ []) (after_wait h w))))).1
  verified-Clean listener_failed = (refl, (tt, (tt, (promises, (tt, (tt, tt))))))
  verified-Clean signalled = (refl, (tt, (tt, (promises, (tt, (tt, (tt, tt)))))))

  configured-Clean : Clean os (configured h (loaded cfg)).1
  unfolding new_store
  configured-Clean = elim (Bool-cases (h.opens_pool cfg.database_dsn)) [
    | inr closed_pool ↦ rw (closed_pool) (refl, (tt, tt))
    | inl opened ↦ elim (Bool-cases h.answers) [
      | inr silent ↦ rw (opened, silent) (refl, (tt, (tt, (tt, (tt, tt)))))
      | inl answering ↦ rw (opened, answering) (verified-Clean h.waited)
    ]
  ]

  dsn_of : os_getenv os (codes "DATABASE_URL") ≡ cfg.database_dsn
  dsn_of = ground (arith, promises.0, promises.1)

  configured-exit : exit_status (configured h (loaded cfg)) ≡ (
      if h.opens_pool cfg.database_dsn && (h.answers && (is_signalled h.waited && h.shuts_down))
      then 0
      else 1)
  unfolding new_store exit_status
  configured-exit = ground arith

-- A connection pool is opened at most once, is checked before the server listens, and is given back on
-- every path, after the listener and the shutdown; the signals are released last. The server listens only
-- with settings that keep the promises of Load. The exit status is 0 exactly when the settings are
-- acceptable, the database answers, and a signal ended the run within the time to shut down.
pub run-Clean :
    (h : Host) (os : Platform)
    → Clean os (run h os).1 × (exit_status (run h os) ≡ (if goes_well h os then 0 else 1))
unfolding run exit_status
run-Clean h os = elim (Bool-cases (acceptable os)) [
  | inl good ↦
      let (cfg, is, promises) = rw good at (load-Verdict os) in
      let exits = configured-exit h os cfg promises in
      (
        rw (is) (configured-Clean h os cfg promises),
        rw (is) (exits ∙ rw (good, dsn_of h os cfg promises) refl),
      )
  | inr bad ↦ let (e, is) = rw bad at (load-Verdict os) in (rw (is) (refl, tt), rw (is, bad) refl)
]
