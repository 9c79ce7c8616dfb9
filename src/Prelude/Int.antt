-- ===== src/Prelude/Int.antt =====
-- Integers over the native numbers: Python's `int`.
use Prim.Native.Nat.{ℕ, zero, suc, ◌+◌, compare, Ordering}
use mathlib.Core.Path.{◌≡◌}
use mathlib.Core.Bool.{Bool}
use native.Mathlib.Omega.{arith}
use us_flight_delay_mlops.Prelude.Tests.{ltb, leb}

-- `negsuc n` is -(n + 1).
pub data ℤ : Type 0 where
  pos : ℕ → ℤ
  negsuc : ℕ → ℤ

abbrev pub pos_part : ℤ → ℕ
pos_part (pos n) = n
pos_part (negsuc n) = 0

abbrev pub neg_part : ℤ → ℕ
neg_part (pos n) = 0
neg_part (negsuc n) = suc n

abbrev pub negate : ℤ → ℤ
negate (pos zero) = pos zero
negate (pos (suc n)) = negsuc n
negate (negsuc n) = pos (suc n)

abbrev pub leb_ℤ : ℤ → ℤ → Bool
leb_ℤ a b = leb (pos_part a + neg_part b) (pos_part b + neg_part a)

abbrev pub ltb_ℤ : ℤ → ℤ → Bool
ltb_ℤ a b = ltb (pos_part a + neg_part b) (pos_part b + neg_part a)

abbrev pub compare_ℤ : ℤ → ℤ → Ordering
compare_ℤ a b = compare (pos_part a + neg_part b) (pos_part b + neg_part a)

pub eq_of_parts : (a b : ℤ) → pos_part a + neg_part b ≡ pos_part b + neg_part a → a ≡ b
eq_of_parts a b h = ground arith
