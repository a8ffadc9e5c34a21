-- ===== src/Prelude/Int.antt =====
-- Signed durations of the package time of Go, and the times that they lead to.
use Prim.Native.Nat.{ℕ, zero, suc, ◌+◌, ◌-◌, ◌/◌}
use mathlib.Core.Path.{◌≡◌}
use mathlib.Core.Bool.{Bool, true, not}
use native.Mathlib.Omega.{arith}
use go_vault.Prelude.Tests.{ltb, leb, if◌then◌else◌}

-- `negsuc n` is -(n + 1).
pub data ℤ : Type 0 where
  pos : ℕ → ℤ
  negsuc : ℕ → ℤ

abbrev pub pos_part : ℤ → ℕ
pos_part (pos n) = n
pos_part (negsuc n) = 0

abbrev pub neg_part : ℤ → ℕ
neg_part (pos n) = 0
neg_part (negsuc n) = suc n

-- `t.Add(d)`: the time may lie before the epoch of the model.
unfoldable pub add_duration : ℕ → ℤ → ℤ
add_duration t (pos n) = pos (t + n)
add_duration t (negsuc n) = if ltb n t then pos (t - suc n) else negsuc (n - t)

-- `t.After(u)`
unfoldable pub is_after : ℕ → ℤ → Bool
is_after t (pos u) = ltb u t
is_after t (negsuc u) = true

abbrev negate : ℕ → ℤ
negate zero = pos 0
negate (suc n) = negsuc n

-- A number divided by a positive one, towards zero.
unfoldable pub quotient : ℤ → ℕ → ℤ
quotient (pos n) d = pos (n / d)
quotient (negsuc n) d = negate (suc n / d)

-- A time is past another one and a duration, or at most that.
pub is_after-add_duration :
    (t start : ℕ) (d : ℤ)
    → is_after t (add_duration start d) ≡ not (leb (t + neg_part d) (start + pos_part d))
unfolding is_after add_duration
is_after-add_duration t start (pos n) = ground arith
is_after-add_duration t start (negsuc n) = ground arith
