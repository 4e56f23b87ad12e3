-- ===== src/Base/Int/Magnitude.antt =====
-- The magnitude of products and sums, and the 32 bits in which they do not wrap.
use monte_lauro_ml_cd32_ppc.Base.{ℕ, ◌+◌, ◌*◌, ◌^◌, ◌≤◌, ◌<◌, ◌≡◌, arith}
use native.Mathlib.Nat.{mul-le-mul}
use monte_lauro_ml_cd32_ppc.Base.Int.{ℤ, pos, negsuc, ◌+ℤ◌, ◌*ℤ◌, i32, magnitude}

pub i32-exact : (x : ℤ) → magnitude x < 2 ^ 31 → i32 x ≡ x
i32-exact (pos n) h = ground arith
i32-exact (negsuc n) h = ground arith

pub magnitude-times : (x y : ℤ) → magnitude (x *ℤ y) ≡ magnitude x * magnitude y
unfolding ◌*ℤ◌
magnitude-times (pos m) (pos n) = ground arith
magnitude-times (pos m) (negsuc n) = ground arith
magnitude-times (negsuc m) (pos n) = ground arith
magnitude-times (negsuc m) (negsuc n) = ground arith

pub magnitude-plus : (x y : ℤ) → magnitude (x +ℤ y) ≤ magnitude x + magnitude y
unfolding ◌+ℤ◌
magnitude-plus x y = ground arith

pub times-le : (x y : ℤ) (m n : ℕ) → magnitude x ≤ m → magnitude y ≤ n → magnitude (x *ℤ y) ≤ m * n
times-le x y m n h k = rw (magnitude-times x y) (mul-le-mul h k)
