-- ===== src/Alerts.antt =====
-- internal/audit/alert.go: the tracker of login failures and the notices that it raises. The
-- notifier's log lines are values.
use go_vault.Prelude.{
  ℕ, ◌*◌, List, [], ◌∷◌, ◌++◌, Option, none, some, if◌then◌else◌, Bytes, leb, filter, length,
}
use go_vault.Prelude.Map.{Map, nat_eq, empty, insert, delete}
use go_vault.Primitives.{Primitives}
use go_vault.Auth.RateLimiter.{in_window}
use go_vault.Auth.Lockout.{minute}

pub data Notice : Type 0 where
  login_failure_threshold : ℕ → Bytes → ℕ → Notice
  new_device : ℕ → Bytes → Notice

pub record Tracker : Type 0 where
  pub failures : Map ℕ (List ℕ)
  pub limit : ℕ
  pub window : ℕ

unfoldable pub new_tracker : Tracker
new_tracker = record { failures = empty; limit = 5; window = 15 * minute }

abbrev pub events : Map ℕ (List ℕ) → ℕ → List ℕ
events m id = elim (m id) [ none ↦ [] | some ts ↦ ts ]

-- The notices raised, and the tracker afterwards.
unfoldable pub record_login_failure : Tracker → ℕ → ℕ → Bytes → List Notice × Tracker
record_login_failure t now user_id ip =
    let pruned = filter (in_window t.window now) (events t.failures user_id) ++ now ∷ [] in
    (
      if leb t.limit (length pruned)
          then login_failure_threshold user_id ip (length pruned) ∷ []
          else [],
      record t { failures = insert user_id pruned t.failures },
    )

unfoldable pub reset_failures : Tracker → ℕ → Tracker
reset_failures t user_id = record t { failures = delete user_id t.failures }

-- HashUserAgent: nil for no user agent.
unfoldable pub hash_user_agent : Primitives → Bytes → Option Bytes
hash_user_agent p [] = none
hash_user_agent p (c ∷ cs) = some (p.sha256 (c ∷ cs))
