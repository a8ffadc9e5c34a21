-- ===== src/Tests/Auth.antt =====
-- Witnesses for go_vault.Auth.
use go_vault.Prelude.{
  ℕ, ◌+◌, ◌≡◌, ◌≢◌, ◌≤◌, refl, false, ◌&&◌, List, [], ◌∷◌, none, some, arith, Bytes, ltb, leb,
  length, filter, replicate, min, ◌*◌, ◌^◌, bytes_eq, is_after,
}
use go_vault.Errors.{ok, err, session_invalid}
use go_vault.Auth.RateLimiter.{new_rate_limiter, in_window}
use go_vault.Auth.RateLimiter.Window.{
  attempt, clear, Call, run, run_log, no_log, end_time, run_within_limit,
}
use go_vault.Auth.Lockout.{
  LockoutTracker, is_locked, backoff_delay, backoff_base, max_backoff, lockout_failure_threshold,
  lockout_duration,
}
use go_vault.Auth.Lockout.Episode.{fail_at, final, is_locked-fail_at, lock_forgotten}
use go_vault.Auth.Lockout.Backoff.{backoff_delay-min}
use go_vault.Auth.Session.{
  create_session_pair, validate_access, refresh_lookup, refresh_session, revoke_session,
  revoke_all_sessions,
}
use go_vault.Storage.Sessions.Unique.{IsUnique}
use go_vault.Auth.Session.Rotation.{
  user_of, holder_of, at_time, create_opens, refresh_rotates, revoked_for_good,
}
use go_vault.Primitives.{hex_encode}
use go_vault.Auth.Manager.{new_manager}
use go_vault.Tests.Data.{plain, db, server, session}

abbrev calls : List Call
calls =
    attempt 1 (7 ∷ [])
    ∷ attempt 2 (7 ∷ [])
    ∷ attempt 3 (7 ∷ [])
    ∷ clear (7 ∷ [])
    ∷ attempt 4 (7 ∷ [])
    ∷ attempt 12 (7 ∷ [])
    ∷ []

run_within_limit_example :
    ((run (new_rate_limiter 2 10) calls).0 ≡ (run_log 2 10 no_log calls).0)
    × ((key : Bytes) (now : ℕ)
        → end_time 0 calls ≤ now
        → length (filter (in_window 10 now) ((run_log 2 10 no_log calls).1 key)) ≤ 2)
run_within_limit_example =
    run_within_limit 2 10 calls
      (omega arith, (omega arith, (omega arith, (omega arith, (omega arith, tt)))))

abbrev times : List ℕ
times = 2 ∷ 3 ∷ 4 ∷ 5 ∷ []

abbrev forgetful : LockoutTracker
forgetful = record { records = λ email. none }

is_locked-fail_at_example :
    (is_locked (fail_at forgetful (7 ∷ []) (1 ∷ times)) 6 (7 ∷ [])).0
    ≡ (leb lockout_failure_threshold (length times + 1) && ltb 6 (final 1 times + lockout_duration))
is_locked-fail_at_example = is_locked-fail_at forgetful (7 ∷ []) 1 times 6 refl (
  omega arith,
  omega arith,
  (omega arith, omega arith, (omega arith, omega arith, (omega arith, omega arith, tt))),
)

-- Five failures, a check after the lock, and two more failures.
lock_forgotten_example :
    let (locked, l') = is_locked (fail_at forgetful (7 ∷ []) (1 ∷ times)) 900000000006 (7 ∷ []) in
    (locked ≡ false)
    × ((is_locked (fail_at l' (7 ∷ []) (900000000007 ∷ 900000000008 ∷ [])) 900000000009 (7 ∷ [])).0
        ≡ false)
lock_forgotten_example =
    lock_forgotten forgetful (7 ∷ []) 1 times 900000000006 900000000007 (900000000008 ∷ [])
      900000000009 refl
      (
        omega arith,
        omega arith,
        (omega arith, omega arith, (omega arith, omega arith, (omega arith, omega arith, tt))),
      )
      (omega arith) (omega arith) (omega arith, omega arith, tt)

backoff_delay-min_example : backoff_delay 3 ≡ min (backoff_base * 2 ^ 2) max_backoff
backoff_delay-min_example = backoff_delay-min 2

-- The tokens of the first two draws.
abbrev first : Bytes
unfolding hex_encode
first = hex_encode (replicate 32 0)

abbrev second : Bytes
unfolding hex_encode
second = hex_encode (replicate 32 1)

-- After 150 of the 100 and 200 nanoseconds.
create_opens_example :
    let db' = at_time 1150 (create_session_pair plain server.auth 1 db).1 in
    (holder_of (validate_access plain first db').0 ≡ err session_invalid)
    × (holder_of (refresh_lookup plain second db').0 ≡ ok 1)
unfolding create_session_pair bytes_eq new_manager
create_opens_example = create_opens plain server.auth db (λ n. refl) 1 first second 1150 refl

db-IsUnique : IsUnique db
unfolding bytes_eq
db-IsUnique = record {
  ids = (refl, (refl, tt));
  access = (refl, (refl, tt));
  refresh = (refl, (refl, tt));
  given = (omega arith, (omega arith, tt));
}

refresh_rotates_example :
    let db' = at_time 1150 (refresh_session plain server.auth (2 ∷ []) db).1 in
    ((refresh_lookup plain (2 ∷ []) db').0 ≡ err session_invalid)
    × ((validate_access plain (1 ∷ []) db').0 ≡ err session_invalid)
    × (holder_of (refresh_lookup plain second db').0 ≡ ok 1)
    × (holder_of (validate_access plain first db').0 ≡ err session_invalid)
unfolding refresh_session bytes_eq new_manager is_after
refresh_rotates_example =
    refresh_rotates plain server.auth db (session 11 1 (1 ∷ []) (2 ∷ [])) (2 ∷ []) (1 ∷ []) first
      second 1150 (λ n. refl) db-IsUnique refl refl refl refl refl

revoked_for_good_example :
    ((validate_access plain (1 ∷ []) (revoke_session plain (1 ∷ []) db).1).0 ≡ err session_invalid)
    × (user_of (validate_access plain (1 ∷ []) (revoke_all_sessions 1 db).1).0 ≢ some 1)
    × (user_of (refresh_lookup plain (1 ∷ []) (revoke_all_sessions 1 db).1).0 ≢ some 1)
revoked_for_good_example = revoked_for_good plain db (1 ∷ []) 1 (λ n. refl)
