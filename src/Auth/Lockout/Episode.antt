-- ===== src/Auth/Lockout/Episode.antt =====
-- A run of failed logins, internal/auth/lockout.go.
use go_vault.Prelude.{
  ℕ, suc, ◌+◌, ◌≤◌, ◌<◌, ◌≡◌, false, ◌&&◌, List, [], ◌∷◌, none, some, arith, ltb, leb,
  if◌then◌else◌, length, Bytes, bytes_eq_refl,
}
use native.Mathlib.Nat.{zero-add}
use go_vault.Prelude.Map.{text_eq}
use go_vault.Auth.Lockout.{
  FailureRecord, LockoutTracker, lockout_failure_threshold, lockout_duration, lockout_window,
  is_locked, record_failure,
}

-- Failures of one email at the given times, the oldest first.
pub fail_at : LockoutTracker → Bytes → List ℕ → LockoutTracker
fail_at l email [] = l
fail_at l email (t ∷ ts) = fail_at (record_failure l t email).1 email ts

-- The times go up from `first`, and stay within the lockout window of it.
abbrev pub IsEpisode : ℕ → ℕ → List ℕ → Type 0
IsEpisode first last [] = Unit {0}
IsEpisode first last (t ∷ ts) = (last ≤ t) × (t ≤ first + lockout_window) × IsEpisode first t ts

-- The last of the times.
abbrev pub final : ℕ → List ℕ → ℕ
final last [] = last
final last (t ∷ ts) = final t ts

-- What the tracker holds after `n` failures, of which the last was at `last`.
abbrev expected : ℕ → ℕ → ℕ → FailureRecord
expected n first last = record {
  failures = n;
  first_fail = first;
  locked_until = if leb lockout_failure_threshold n then last + lockout_duration else 0;
}

record_failure-expected :
    (l : LockoutTracker) (email : Bytes) (n first last now : ℕ)
    → l.records email ≡ some (expected n first last)
    → last ≤ now
    → now ≤ first + lockout_window
    → (record_failure l now email).1.records email ≡ some (expected (suc n) first now)
unfolding record_failure
record_failure-expected l email n first last now h p q = ground (arith, bytes_eq_refl email)

record_failure-first :
    (l : LockoutTracker) (email : Bytes) (now : ℕ)
    → l.records email ≡ none
    → (record_failure l now email).1.records email ≡ some (expected 1 now now)
unfolding record_failure
record_failure-first l email now h = ground (arith, bytes_eq_refl email)

fail_at-expected :
    (ts : List ℕ) (l : LockoutTracker) (email : Bytes) (n first last : ℕ)
    → l.records email ≡ some (expected n first last)
    → IsEpisode first last ts
    → (fail_at l email ts).records email ≡ some (expected (length ts + n) first (final last ts))
unfolding fail_at
fail_at-expected [] l email n first last h e = rw (zero-add) h
fail_at-expected (t ∷ ts) l email n first last h (p, q, e) =
    let next = record_failure-expected l email n first last t h p q in
    let count : length ts + suc n ≡ suc (length ts) + n = omega arith in
    rw (← count) (fail_at-expected ts (record_failure l t email).1 email (suc n) first t next e)

is_locked-expected :
    (l : LockoutTracker) (email : Bytes) (n first last now : ℕ)
    → l.records email ≡ some (expected n first last)
    → (is_locked l now email).0
      ≡ (leb lockout_failure_threshold n && ltb now (last + lockout_duration))
unfolding is_locked
is_locked-expected l email n first last now h = ground arith

-- What the tracker holds after an episode.
fail_at-episode :
    (l : LockoutTracker) (email : Bytes) (t : ℕ) (ts : List ℕ)
    → l.records email ≡ none
    → IsEpisode t t ts
    → (fail_at l email (t ∷ ts)).records email ≡ some (expected (length ts + 1) t (final t ts))
unfolding fail_at
fail_at-episode l email t ts h e =
    fail_at-expected ts (record_failure l t email).1 email 1 t t (record_failure-first l email t h)
      e

-- An email with no record fails at `t` and then at the times `ts`, which go up, none of them more than 15
-- minutes after `t`. It is locked at `now` exactly when there were five failures or more and `now`
-- is less than 15 minutes after the last of them.
pub is_locked-fail_at :
    (l : LockoutTracker) (email : Bytes) (t : ℕ) (ts : List ℕ) (now : ℕ)
    → l.records email ≡ none
    → IsEpisode t t ts
    → (is_locked (fail_at l email (t ∷ ts)) now email).0
      ≡ (leb lockout_failure_threshold (length ts + 1) && ltb now (final t ts + lockout_duration))
is_locked-fail_at l email t ts now h e =
    is_locked-expected (fail_at l email (t ∷ ts)) email (length ts + 1) t (final t ts) now
      (fail_at-episode l email t ts h e)

-- The first check after a lock answers no and forgets the failures.
lock_ended :
    (l : LockoutTracker) (email : Bytes) (n first last now : ℕ)
    → l.records email ≡ some (expected n first last)
    → lockout_failure_threshold ≤ n
    → last + lockout_duration < now
    → ((is_locked l now email).0 ≡ false) × ((is_locked l now email).1.records email ≡ none)
unfolding is_locked
lock_ended l email n first last now h many over =
    (ground arith, ground (arith, bytes_eq_refl email))

-- An email with no record fails at `t` and then at the times `ts`, five times or more, none of them more
-- than 15 minutes after `t`. More than 15 minutes after the last failure IsLocked answers no; and after
-- that check the email starts over: failures at `t'` and then at `ts'`,
-- none more than 15 minutes after `t'`, lock it at a moment exactly when they alone are five or more and
-- the moment is less than 15 minutes after the last of them.
pub lock_forgotten :
    (l : LockoutTracker) (email : Bytes) (t : ℕ) (ts : List ℕ) (now t' : ℕ) (ts' : List ℕ)
    (moment : ℕ)
    → l.records email ≡ none
    → IsEpisode t t ts
    → lockout_failure_threshold ≤ length ts + 1
    → final t ts + lockout_duration < now
    → IsEpisode t' t' ts'
    → let (locked, l') = is_locked (fail_at l email (t ∷ ts)) now email in
      (locked ≡ false)
      × ((is_locked (fail_at l' email (t' ∷ ts')) moment email).0 ≡ (
          leb lockout_failure_threshold (length ts' + 1)
          && ltb moment (final t' ts' + lockout_duration)))
lock_forgotten l email t ts now t' ts' moment h e many over e' =
    let ended =
      lock_ended (fail_at l email (t ∷ ts)) email (length ts + 1) t (final t ts) now
        (fail_at-episode l email t ts h e) many over in
    (
      ended.0,
      is_locked-fail_at (is_locked (fail_at l email (t ∷ ts)) now email).1 email t' ts' moment
          ended.1 e',
    )
