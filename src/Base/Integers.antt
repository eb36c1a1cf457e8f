-- ===== src/Base/Integers.antt =====
-- Go's `int`, as an unbounded signed integer, with `x++`, `x--` and the sum with a length.
use Prim.Native.Nat.{ℕ, zero, suc, ◌+◌}
use mathlib.Core.Path.{◌≡◌}
use native.Mathlib.Omega.{arith}

-- `negsuc n` is -(n + 1).
pub data ℤ : Type 0 where
  pos : ℕ → ℤ
  negsuc : ℕ → ℤ

abbrev pub incr : ℤ → ℤ
incr (pos n) = pos (suc n)
incr (negsuc zero) = pos 0
incr (negsuc (suc n)) = negsuc n

abbrev pub decr : ℤ → ℤ
decr (pos zero) = negsuc 0
decr (pos (suc n)) = pos n
decr (negsuc n) = negsuc (suc n)

abbrev pub add_nat : ℕ → ℤ → ℤ
add_nat zero z = z
add_nat (suc n) z = incr (add_nat n z)

pub add_nat-pos : (n m : ℕ) → add_nat n (pos m) ≡ pos (n + m)
add_nat-pos zero m = ground arith
add_nat-pos (suc n) m = ground (arith, add_nat-pos n m)
