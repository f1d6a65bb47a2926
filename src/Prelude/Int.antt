-- ===== src/Prelude/Int.antt =====
-- Signed integers over the native numbers, with the order that the comparisons of Go's int need.
use Prim.Native.Nat.{ℕ}
use mathlib.Core.Bool.{Bool, true}
use circonus_agent.Prelude.Tests.{leb}

-- `negsuc n` is -(n + 1).
pub data ℤ : Type 0 where
  pos : ℕ → ℤ
  negsuc : ℕ → ℤ

-- `a >= b` for a count `a` and a signed `b`.
abbrev pub count_ge : ℕ → ℤ → Bool
count_ge a (pos b) = leb b a
count_ge a (negsuc b) = true

-- `b != -1`.
abbrev pub ne_minus_one : ℤ → Bool
ne_minus_one (pos b) = true
ne_minus_one (negsuc b) = leb 1 b
