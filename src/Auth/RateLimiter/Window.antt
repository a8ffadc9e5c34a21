-- ===== src/Auth/RateLimiter/Window.antt =====
-- The pruning limiter of internal/auth/ratelimit.go against one that keeps the whole log.
use go_vault.Prelude.{
  ℕ, ◌≤◌, ◌≡◌, refl, ap, inl, inr, Bool, true, false, List, [], ◌∷◌, ◌++◌, arith, leb,
  if◌then◌else◌, length, filter, Bytes, bytes_eq, bytes_eq_iff, Bool-cases, filter-append,
  length-append,
}
use go_vault.Prelude.Map.{text_eq}
use go_vault.Auth.RateLimiter.{RateLimiter, new_rate_limiter, entries, in_window, allow, reset}

-- A call on the limiter: an attempt at a time, or a reset.
pub data Call : Type 0 where
  attempt : ℕ → Bytes → Call
  clear : Bytes → Call

-- The calls in their order, with the verdict of each attempt.
pub run : RateLimiter → List Call → List Bool × RateLimiter
run r [] = ([], r)
run r (attempt now key ∷ cs) =
    let (v, r') = allow r now key in let (vs, r'') = run r' cs in (v ∷ vs, r'')
run r (clear key ∷ cs) = run (reset r key) cs

-- The specification: the times of the admitted attempts of each key since its last reset, none of
-- them ever pruned.
abbrev pub Log : Type 0
Log = Bytes → List ℕ

-- An attempt is admitted if fewer than `limit` admitted ones lie in the window before it.
abbrev pub admits : ℕ → ℕ → Log → ℕ → Bytes → Bool
admits limit window log now key =
    if leb limit (length (filter (in_window window now) (log key))) then false else true

abbrev pub put : Bytes → List ℕ → Log → Log
put key ts log j = if bytes_eq key j then ts else log j

abbrev pub record_if : Bool → ℕ → Bytes → Log → Log
record_if v now key log = if v then put key (log key ++ now ∷ []) log else log

pub run_log : ℕ → ℕ → Log → List Call → List Bool × Log
run_log limit window log [] = ([], log)
run_log limit window log (attempt now key ∷ cs) =
    let v = admits limit window log now key in
    let (vs, log') = run_log limit window (record_if v now key log) cs in (v ∷ vs, log')
run_log limit window log (clear key ∷ cs) = run_log limit window (put key [] log) cs

-- The clock does not go back, from `last` on.
abbrev pub IsOrdered : ℕ → List Call → Type 0
IsOrdered last [] = Unit {0}
IsOrdered last (attempt now key ∷ cs) = (last ≤ now) × IsOrdered now cs
IsOrdered last (clear key ∷ cs) = IsOrdered last cs

-- Entries that leave the window do not come back into it.
filter-filter :
    (w now later : ℕ) (ts : List ℕ)
    → now ≤ later
    → filter (in_window w later) (filter (in_window w now) ts) ≡ filter (in_window w later) ts
filter-filter w now later [] h = refl
filter-filter w now later (t ∷ ts) h = ground (arith, filter-filter w now later ts h)

-- From `last` on, the limiter and the log show the same entries in every window.
abbrev Agrees : ℕ → RateLimiter → Log → Type 0
Agrees last r log =
    (key : Bytes) (now : ℕ)
    → last ≤ now
    → filter (in_window r.window now) (entries r.windows key)
      ≡ filter (in_window r.window now) (log key)

module _ (r : RateLimiter) (log : Log) (last : ℕ) (agrees : Agrees last r log) where
  allow-admits :
      (now : ℕ) (key : Bytes)
      → last ≤ now
      → (allow r now key).0 ≡ admits r.limit r.window log now key
  unfolding allow
  allow-admits now key h = ground (arith, agrees key now h)

  allow-Agrees :
      (now : ℕ) (key : Bytes)
      → last ≤ now
      → Agrees now (allow r now key).1 (record_if (admits r.limit r.window log now key) now key log)
  unfolding allow
  allow-Agrees now key h j later k = ground (
    arith,
    agrees key now h,
    agrees j later,
    agrees key later,
    filter-filter r.window now later (entries r.windows key) k,
    filter-append (in_window r.window later)
        (filter (in_window r.window now) (entries r.windows key)) (now ∷ []),
    filter-append (in_window r.window later) (log key) (now ∷ []),
    bytes_eq_iff key j,
  )

  reset-Agrees : (key : Bytes) → Agrees last (reset r key) (put key [] log)
  unfolding reset
  reset-Agrees key j now h = elim (Bool-cases (bytes_eq key j)) [
    | inl same ↦ rw (same, entries)
    | inr other ↦ rw (other, entries) (agrees j now h)
  ]

-- Pruning changes no setting.
allow_settings :
    (r : RateLimiter) (now : ℕ) (key : Bytes)
    → ((allow r now key).1.limit ≡ r.limit) × ((allow r now key).1.window ≡ r.window)
unfolding allow
allow_settings r now key = ground arith

cons_eq : {v v' : Bool} {vs vs' : List Bool} → v ≡ v' → vs ≡ vs' → v ∷ vs ≡ v' ∷ vs'
cons_eq p q = cc

run-eq-run_log :
    (cs : List Call) (r : RateLimiter) (log : Log) (last : ℕ)
    → Agrees last r log
    → IsOrdered last cs
    → (run r cs).0 ≡ (run_log r.limit r.window log cs).0
unfolding run run_log reset
run-eq-run_log [] r log last a o = refl
run-eq-run_log (attempt now key ∷ cs) r log last a o =
    let log' : Log = record_if (admits r.limit r.window log now key) now key log in
    let rest =
      run-eq-run_log cs (allow r now key).1 log' now (allow-Agrees r log last a now key o.0) o.1 in
    let settings = allow_settings r now key in
    cons_eq (allow-admits r log last a now key o.0) (rw (settings.0, settings.1) at rest)
run-eq-run_log (clear key ∷ cs) r log last a o =
    run-eq-run_log cs (reset r key) (put key [] log) last (reset-Agrees r log last a key) o

-- No window that ends at `last` or later holds more than `limit` admitted attempts of one key.
abbrev IsBounded : ℕ → ℕ → ℕ → Log → Type 0
IsBounded limit window last log =
    (key : Bytes) (now : ℕ) → last ≤ now → length (filter (in_window window now) (log key)) ≤ limit

length-filter-later :
    (w now later : ℕ) (ts : List ℕ)
    → now ≤ later
    → length (filter (in_window w later) ts) ≤ length (filter (in_window w now) ts)
length-filter-later w now later [] h = omega arith
length-filter-later w now later (t ∷ ts) h = ground (arith, length-filter-later w now later ts h)

record_if-IsBounded :
    (limit window last now : ℕ) (key : Bytes) (log : Log)
    → last ≤ now
    → IsBounded limit window last log
    → IsBounded limit window now (record_if (admits limit window log now key) now key log)
record_if-IsBounded limit window last now key log h b j later k = ground (
  arith,
  b j later,
  length-filter-later window now later (log key) k,
  ap (length {A = ℕ}) (filter-append (in_window window later) (log key) (now ∷ [])),
  length-append (filter (in_window window later) (log key))
      (filter (in_window window later) (now ∷ [])),
)

put-IsBounded :
    (limit window last : ℕ) (key : Bytes) (log : Log)
    → IsBounded limit window last log
    → IsBounded limit window last (put key [] log)
put-IsBounded limit window last key log b j now h = elim (Bool-cases (bytes_eq key j)) [
  | inl same ↦ rw same (omega arith)
  | inr other ↦ rw other (b j now h)
]

-- The time of the last attempt.
abbrev pub end_time : ℕ → List Call → ℕ
end_time last [] = last
end_time last (attempt now key ∷ cs) = end_time now cs
end_time last (clear key ∷ cs) = end_time last cs

run_log-IsBounded :
    (limit window : ℕ) (cs : List Call) (log : Log) (last : ℕ)
    → IsBounded limit window last log
    → IsOrdered last cs
    → IsBounded limit window (end_time last cs) (run_log limit window log cs).1
unfolding run_log
run_log-IsBounded limit window [] log last b o = b
run_log-IsBounded limit window (attempt now key ∷ cs) log last b o =
    run_log-IsBounded limit window cs (record_if (admits limit window log now key) now key log) now
      (record_if-IsBounded limit window last now key log o.0 b) o.1
run_log-IsBounded limit window (clear key ∷ cs) log last b o =
    run_log-IsBounded limit window cs (put key [] log) last
      (put-IsBounded limit window last key log b) o

abbrev pub no_log : Log
no_log key = []

-- On a clock that does not go back, the verdicts of a new limiter on any sequence of attempts and
-- resets are those of the full log, which prunes nothing, admits an attempt exactly when fewer than
-- `limit` admitted ones lie in its window, and loses the attempts of a key when that key is reset; and
-- in that log, of what was admitted since the last reset of each key, no window that ends at the last
-- attempt or later holds more than `limit` attempts of one key.
pub run_within_limit :
    (limit window : ℕ) (cs : List Call)
    → IsOrdered 0 cs
    → ((run (new_rate_limiter limit window) cs).0 ≡ (run_log limit window no_log cs).0)
      × ((key : Bytes) (now : ℕ)
          → end_time 0 cs ≤ now
          → length (filter (in_window window now) ((run_log limit window no_log cs).1 key)) ≤ limit)
unfolding new_rate_limiter
run_within_limit limit window cs o = (
  run-eq-run_log cs (new_rate_limiter limit window) no_log 0 (λ key now h. refl) o,
  run_log-IsBounded limit window cs no_log 0 (λ key now h. omega arith) o,
)
