-- ===== src/Base/Words.antt =====
-- Machine words as native numbers: casts, single bits, byte lanes, big- and little-endian bytes.
-- `x & (2^k - 1)` is written `x % 2 ^ k`, and `x >> k` is `x / 2 ^ k`.
use Prim.Native.Nat.{ℕ, ◌+◌, ◌-◌, ◌*◌, ◌/◌, ◌%◌, ◌^◌}
use mathlib.Core.Path.{◌≡◌}
use mathlib.Core.Bool.{Bool}
use mathlib.Core.Logic.{◌⊎◌}
use native.Mathlib.Omega.{arith}
use monte_lauro_ml_cd32_ppc.Base.Tests.{◌==◌, ltb, if◌then◌else◌}

abbrev pub u8 : ℕ → ℕ
u8 x = x % 2 ^ 8

abbrev pub u16 : ℕ → ℕ
u16 x = x % 2 ^ 16

abbrev pub u32 : ℕ → ℕ
u32 x = x % 2 ^ 32

abbrev pub u64 : ℕ → ℕ
u64 x = x % 2 ^ 64

-- `x & 2^k != 0`
abbrev pub test_bit : ℕ → ℕ → Bool
test_bit k x = x / 2 ^ k % 2 == 1

-- `x | 2^k`
abbrev pub set_bit : ℕ → ℕ → ℕ
set_bit k x = x + (1 - x / 2 ^ k % 2) * 2 ^ k

-- `x & !2^k`
abbrev pub clear_bit : ℕ → ℕ → ℕ
clear_bit k x = x - x / 2 ^ k % 2 * 2 ^ k

-- `(x & !((2^w - 1) << s)) | (v << s)` for a `v` below `2^w`
abbrev pub put_bits : ℕ → ℕ → ℕ → ℕ → ℕ
put_bits s w v x = x / 2 ^ (s + w) * 2 ^ (s + w) + v * 2 ^ s + x % 2 ^ s

-- `x.wrapping_add(y)` and `x.wrapping_sub(y)` on `u32`
abbrev pub add32 : ℕ → ℕ → ℕ
add32 x y = (x + y) % 2 ^ 32

abbrev pub sub32 : ℕ → ℕ → ℕ
sub32 x y = (x + 2 ^ 32 - y) % 2 ^ 32

-- `x as i8 as u32` and `x as i16 as u32`: the low bits, with the sign copied up
abbrev pub sext8 : ℕ → ℕ
sext8 x = if ltb (x % 2 ^ 8) 0x80 then x % 2 ^ 8 else x % 2 ^ 8 + 0xFFFF_FF00

abbrev pub sext16 : ℕ → ℕ
sext16 x = if ltb (x % 2 ^ 16) 0x8000 then x % 2 ^ 16 else x % 2 ^ 16 + 0xFFFF_0000

-- the field of `w` bits from bit `s` on, `(x >> s) & (2^w - 1)`
abbrev pub bits : ℕ → ℕ → ℕ → ℕ
bits s w x = x / 2 ^ s % 2 ^ w

-- `uN::from_be_bytes`, the high byte first
abbrev pub be16 : ℕ → ℕ → ℕ
be16 a b = a * 256 + b

abbrev pub be32 : ℕ → ℕ → ℕ → ℕ → ℕ
be32 a b c d = a * 2 ^ 24 + b * 2 ^ 16 + c * 256 + d

-- byte `k` of a word, counted from the low end
abbrev pub byte_of : ℕ → ℕ → ℕ
byte_of k x = x / 2 ^ (8 * k) % 256

pub mod_four_cases : (a : ℕ) → (a % 4 ≡ 0) ⊎ ((a % 4 ≡ 1) ⊎ ((a % 4 ≡ 2) ⊎ (a % 4 ≡ 3)))
mod_four_cases a = ground arith
