-- ===== src/Prelude/Int.antt =====
-- Go's `int`, where a value may be negative.
use Prim.Native.Nat.{ℕ}
use mathlib.Core.Path.{◌≡◌}
use mathlib.Core.Bool.{Bool, true, false}
use native.Mathlib.Omega.{arith}
use swift_proof.Prelude.Tests.{ltb, eqb}

-- `negsuc n` is -(n + 1).
pub data ℤ : Type 0 where
  pos : ℕ → ℤ
  negsuc : ℕ → ℤ

-- i == n, i < n and n < i for a constant n that is not negative.
abbrev pub is_nat : ℕ → ℤ → Bool
is_nat n (pos m) = eqb m n
is_nat n (negsuc m) = false

abbrev pub below : ℕ → ℤ → Bool
below n (pos m) = ltb m n
below n (negsuc m) = true

abbrev pub above : ℕ → ℤ → Bool
above n (pos m) = ltb n m
above n (negsuc m) = false

pub is_nat→eq : (n : ℕ) (i : ℤ) → is_nat n i ≡ true → i ≡ pos n
is_nat→eq n (pos m) h = ground arith
is_nat→eq n (negsuc m) h = cc
