-- ===== src/Prelude/Int.antt =====
-- Signed numbers, for Go's `int` and `time.Duration` where the program lets them be negative.
use Prim.Native.Nat.{ℕ, ◌+◌, ◌-◌}
use mathlib.Core.Bool.{Bool, true, false}
use claude_gate.Prelude.Tests.{ltb, leb}

-- `negsuc n` is -(n + 1).
pub data ℤ : Type 0 where
  pos : ℕ → ℤ
  negsuc : ℕ → ℤ

-- n < z and z ≤ n, for a count `n`.
unfoldable pub lt_ℤ : ℕ → ℤ → Bool
lt_ℤ n (pos m) = ltb n m
lt_ℤ n (negsuc m) = false

unfoldable pub le_ℤ : ℤ → ℕ → Bool
le_ℤ (pos m) n = leb m n
le_ℤ (negsuc m) n = true

-- An instant moved by a duration. Instants are counted from an origin that no value precedes.
unfoldable pub add_time : ℕ → ℤ → ℕ
add_time t (pos d) = t + d
add_time t (negsuc d) = t - (d + 1)
