-- ===== src/Base/Digits.antt =====
-- `|` on natural numbers, by binary digits.
use Prim.Native.Nat.{
  ℕ, zero, suc, ◌+◌, ◌*◌, ◌/◌, ◌%◌, ◌^◌, ◌≤◌, ◌<◌, max, digits, bitwise, bit_or, bit_or-bitwise,
}
use mathlib.Core.Path.{◌≡◌, refl, sym, ap, ap₂, ◌∙◌}
use native.Mathlib.Nat.{two-pow-succ, mul-add}
use native.Mathlib.Omega.{arith}

-- Digits beyond those of the first number do not matter.
pub digits_fuel :
    (z : ℕ → ℕ) (f : ℕ → ℕ → ℕ) (n m a b : ℕ) → a ≤ n → a ≤ m → digits z f n a b ≡ digits z f m a b
digits_fuel z f zero zero a b h k = refl
digits_fuel z f zero (suc m) zero b h k = refl
digits_fuel z f zero (suc m) (suc a) b h k = absurd (omega arith)
digits_fuel z f (suc n) zero zero b h k = refl
digits_fuel z f (suc n) zero (suc a) b h k = absurd (omega arith)
digits_fuel z f (suc n) (suc m) zero b h k = refl
digits_fuel z f (suc n) (suc m) (suc a) b h k =
    ap (λ x. x * 2 + f (suc a % 2) (b % 2))
      (digits_fuel z f n m (suc a / 2) (b / 2) (omega arith) (omega arith))

or_digits : ℕ → ℕ → ℕ
or_digits a b = bitwise (λ b. b) max a b

or_digits_step : (a b : ℕ) → or_digits a b ≡ or_digits (a / 2) (b / 2) * 2 + max (a % 2) (b % 2)
unfolding or_digits
or_digits_step zero b = omega arith
or_digits_step (suc a) b =
    ap (λ x. x * 2 + max (suc a % 2) (b % 2))
      (digits_fuel (λ b. b) max a (suc a / 2) (suc a / 2) (b / 2) (omega arith) (omega arith))

bit_or_step : (a b : ℕ) → bit_or a b ≡ bit_or (a / 2) (b / 2) * 2 + max (a % 2) (b % 2)
unfolding or_digits
bit_or_step a b =
    (λ i. bit_or-bitwise a b i)
    ∙ or_digits_step a b
    ∙ ap (λ x. x * 2 + max (a % 2) (b % 2)) (sym (λ i. bit_or-bitwise (a / 2) (b / 2) i))

-- `x / 2 ^ k`, one digit at a time
abbrev pub halves : ℕ → ℕ → ℕ
halves zero x = x
halves (suc k) x = halves k (x / 2)

max_lt_two : (x y : ℕ) → x < 2 → y < 2 → max x y < 2
max_lt_two x y h k = ground arith

halves_of_step : (x y m : ℕ) → x ≡ y * 2 + m → m < 2 → (x / 2 ≡ y) × (x % 2 ≡ m)
halves_of_step x y m e h = (omega arith, omega arith)

bit_or_halves :
    (a b : ℕ) → (bit_or a b / 2 ≡ bit_or (a / 2) (b / 2)) × (bit_or a b % 2 ≡ max (a % 2) (b % 2))
bit_or_halves a b =
    halves_of_step _ _ _ (bit_or_step a b) (max_lt_two (a % 2) (b % 2) (omega arith) (omega arith))

-- a digit of `a | b`
pub digit_of_bit_or :
    (k a b : ℕ) → halves k (bit_or a b) % 2 ≡ max (halves k a % 2) (halves k b % 2)
digit_of_bit_or zero a b = (bit_or_halves a b).1
digit_of_bit_or (suc k) a b =
    ap (λ x. halves k x % 2) (bit_or_halves a b).0 ∙ digit_of_bit_or k (a / 2) (b / 2)

bit_or-zero_fuel : (n a : ℕ) → a ≤ n → bit_or a 0 ≡ a
bit_or-zero_fuel n zero h = refl
bit_or-zero_fuel zero (suc a) h = absurd (omega arith)
bit_or-zero_fuel (suc n) (suc a) h =
    bit_or_step (suc a) 0
    ∙ ap (λ x. x * 2 + max (suc a % 2) 0) (bit_or-zero_fuel n (suc a / 2) (omega arith))
    ∙ ground arith

-- `|` of numbers whose digits are apart, one digit at a time
or_step :
    (w z m p : ℕ)
    → m ≡ w * 2
    → z < p + p
    → (z / 2 < p → bit_or w (z / 2) ≡ w + z / 2)
    → bit_or m z ≡ m + z
or_step w z m p e h ih =
    let low : bit_or (m / 2) (z / 2) ≡ w + z / 2 =
      ap (λ x. bit_or x (z / 2)) {x = m / 2} {y = w} (omega arith) ∙ ih (omega arith) in
    let digit : max (m % 2) (z % 2) ≡ z % 2 = ground arith in
    bit_or_step m z ∙ rw low (rw digit (omega arith))

-- `(y << n) | z` for a `z` of `n` bits
pub bit_or-low : (n y z : ℕ) → z < 2 ^ n → bit_or (y * 2 ^ n) z ≡ y * 2 ^ n + z
bit_or-low zero y z h =
    ap₂ bit_or {x = y * 2 ^ 0} {y = y} {u = z} {v = 0} (omega arith) (omega arith)
    ∙ bit_or-zero_fuel y y (omega arith)
    ∙ omega arith
bit_or-low (suc n) y z h =
    or_step (y * 2 ^ n) z (y * 2 ^ suc n) (2 ^ n)
      (rw (two-pow-succ n) (rw (mul-add y (2 ^ n) (2 ^ n)) (omega arith))) (rw (← two-pow-succ n) h)
      (bit_or-low n y (z / 2))
