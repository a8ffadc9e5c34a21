-- ===== src/Auth/Lockout.antt =====
-- internal/auth/lockout.go: failures per email and the temporary lockout. A time of 0 is the zero
-- `time.Time`. A tracker always exists: the nil receiver, which answers false and 0, is left out.
pub mod Backoff
pub mod Episode
use go_vault.Prelude.{
  ℕ, zero, suc, ◌+◌, ◌-◌, ◌*◌, Bool, true, false, not, ◌&&◌, Option, none, some, ltb, leb, ◌==◌,
  if◌then◌else◌, Bytes,
}
use go_vault.Prelude.Map.{Map, text_eq, empty, insert, delete}

abbrev pub millisecond : ℕ
millisecond = 1000000

abbrev pub second : ℕ
second = 1000000000

abbrev pub minute : ℕ
minute = 60000000000

abbrev pub lockout_failure_threshold : ℕ
lockout_failure_threshold = 5

abbrev pub lockout_duration : ℕ
lockout_duration = 15 * minute

abbrev pub lockout_window : ℕ
lockout_window = 15 * minute

abbrev pub max_backoff : ℕ
max_backoff = 8 * second

abbrev pub backoff_base : ℕ
backoff_base = 250 * millisecond

pub record FailureRecord : Type 0 where
  pub failures : ℕ
  pub first_fail : ℕ
  pub locked_until : ℕ

pub record LockoutTracker : Type 0 where
  pub records : Map Bytes FailureRecord

unfoldable pub new_lockout_tracker : LockoutTracker
new_lockout_tracker = record { records = empty }

-- The verdict on a record: locked, and whether the lock has run out.
abbrev pub has_expired : ℕ → FailureRecord → Bool
has_expired now rec = ltb rec.locked_until now && not (rec.locked_until == 0)

unfoldable pub is_locked : LockoutTracker → ℕ → Bytes → Bool × LockoutTracker
is_locked l now email = elim (l.records email) [
  | none ↦ (false, l)
  | some rec ↦
      if ltb now rec.locked_until
      then (true, l)
      else if has_expired now rec
      then (false, record l { records = delete email l.records })
      else (false, l)
]

-- `for i := 1; i < failures; i++`, by the rounds left.
pub backoff_loop : ℕ → ℕ → ℕ
backoff_loop zero d = d
backoff_loop (suc rounds) d =
    let rest = backoff_loop rounds (d * 2) in if leb max_backoff (d * 2) then max_backoff else rest

pub backoff_delay : ℕ → ℕ
backoff_delay zero = 0
backoff_delay (suc n) = backoff_loop n backoff_base

-- The record that a failure at `now` counts on.
abbrev pub open_record : ℕ → Option FailureRecord → FailureRecord
open_record now none = record { failures = 0; first_fail = now; locked_until = 0 }
open_record now (some rec) =
    if ltb lockout_window (now - rec.first_fail)
    then record { failures = 0; first_fail = now; locked_until = 0 }
    else rec

abbrev pub count_failure : ℕ → FailureRecord → FailureRecord
count_failure now rec = record rec {
  failures = suc rec.failures;
  locked_until =
      if leb lockout_failure_threshold (suc rec.failures)
      then now + lockout_duration
      else rec.locked_until;
}

-- The delay, and the tracker with the failure counted.
pub record_failure : LockoutTracker → ℕ → Bytes → ℕ × LockoutTracker
record_failure l now email =
    let rec = count_failure now (open_record now (l.records email)) in
    (backoff_delay rec.failures, record l { records = insert email rec l.records })

-- `Reset`
pub reset : LockoutTracker → Bytes → LockoutTracker
reset l email = record l { records = delete email l.records }
