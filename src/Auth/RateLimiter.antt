-- ===== src/Auth/RateLimiter.antt =====
-- internal/auth/ratelimit.go: the sliding-window limiter. The clock reading is an argument of
-- `allow`; the mutex makes each call one step.
pub mod Window
use go_vault.Prelude.{
  ℕ, ◌+◌, Bool, true, false, List, [], ◌∷◌, ◌++◌, Option, none, some, ltb, leb, if◌then◌else◌,
  length, filter, Bytes,
}
use go_vault.Prelude.Map.{Map, text_eq, empty, insert, delete}

pub record RateLimiter : Type 0 where
  pub windows : Map Bytes (List ℕ)
  pub limit : ℕ
  pub window : ℕ

unfoldable pub new_rate_limiter : ℕ → ℕ → RateLimiter
new_rate_limiter limit window = record { windows = empty; limit = limit; window = window }

-- `r.windows[key]`, which is nil for a key that is not there.
abbrev pub entries : Map Bytes (List ℕ) → Bytes → List ℕ
entries m key = elim (m key) [ none ↦ [] | some ts ↦ ts ]

-- `t.After(now.Add(-window))`, with the window moved to the other side: times before the epoch of
-- the model are negative in the source.
abbrev pub in_window : ℕ → ℕ → ℕ → Bool
in_window window now t = ltb now (t + window)

-- The verdict and the limiter afterwards.
unfoldable pub allow : RateLimiter → ℕ → Bytes → Bool × RateLimiter
allow r now key =
    let valid = filter (in_window r.window now) (entries r.windows key) in
    if leb r.limit (length valid)
    then (false, record r { windows = insert key valid r.windows })
    else (true, record r { windows = insert key (valid ++ now ∷ []) r.windows })

-- `Reset`
pub reset : RateLimiter → Bytes → RateLimiter
reset r key = record r { windows = delete key r.windows }
