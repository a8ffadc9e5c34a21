-- ===== src/Auth/Lockout/Backoff.antt =====
-- The delay after a failed login, internal/auth/lockout.go backoffDelay.
use go_vault.Prelude.{
  ℕ, zero, suc, ◌*◌, ◌^◌, ◌≤◌, ◌<◌, min, ◌≡◌, arith, leb, ◌∙◌, Bool-cases, leb→le, inl, inr,
}
use native.Mathlib.Nat.{pow-suc}
use go_vault.Auth.Lockout.{max_backoff, backoff_base, backoff_loop, backoff_delay}

one-le-pow : (n : ℕ) → 1 ≤ 2 ^ n
one-le-pow zero = omega arith
one-le-pow (suc n) = rw pow-suc (omega (arith, one-le-pow n))

backoff_loop-min : (n d : ℕ) → d < max_backoff → backoff_loop n d ≡ min (d * 2 ^ n) max_backoff
unfolding backoff_loop
backoff_loop-min zero d h = omega arith
backoff_loop-min (suc n) d h = elim (Bool-cases (leb max_backoff (d * 2))) [
  | inl capped ↦ rw capped (at_cap (leb→le _ _ capped))
  | inr below ↦ rw below (backoff_loop-min n (d * 2) (ground arith) ∙ regroup)
]
  where
    at_cap : max_backoff ≤ d * 2 → max_backoff ≡ min (d * 2 ^ suc n) max_backoff
    at_cap c = rw pow-suc (grind (arith, one-le-pow n))

    regroup : min (d * 2 * 2 ^ n) max_backoff ≡ min (d * 2 ^ suc n) max_backoff
    regroup = rw pow-suc (omega arith)

-- The delay after the `n`th failure is 250 ms doubled `n - 1` times, and never more than 8 s.
pub backoff_delay-min : (n : ℕ) → backoff_delay (suc n) ≡ min (backoff_base * 2 ^ n) max_backoff
unfolding backoff_delay
backoff_delay-min n = backoff_loop-min n backoff_base (omega arith)
