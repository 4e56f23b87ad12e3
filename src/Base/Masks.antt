-- ===== src/Base/Masks.antt =====
-- `&` with a mask of ones, by binary digits.
use Prim.Native.Nat.{
  ℕ, zero, suc, ◌+◌, ◌-◌, ◌*◌, ◌/◌, ◌%◌, ◌^◌, ◌<◌, min, bitwise, bit_and, bit_and-bitwise,
}
use mathlib.Core.Bool.{Bool, true, ◌&&◌}
use mathlib.Core.Path.{◌≡◌, refl, sym, ap, ap₂, ◌∙◌}
use native.Mathlib.Omega.{arith}
use native.Mathlib.Decide.{dec_lt}
use native.Mathlib.Nat.{
  two-pow-succ, one-le-pow, mod-lt, mod-eq_of_lt, mul-add-mod_self_right, div-add-mod', mul-add,
  pow-succ', add_comm, add-mul-div_right, div-eq_of_lt, div-div-eq-div-mul,
}
use monte_lauro_ml_cd32_ppc.Base.Digits.{digits_fuel}

-- a test that every number below `n` passes
unfoldable pub passes : (ℕ → Bool) → ℕ → Bool
passes test zero = true
passes test (suc n) = passes test n && test n

pub passes-at : (test : ℕ → Bool) (n i : ℕ) → i < n → passes test n ≡ true → test i ≡ true
unfolding passes
passes-at test zero i below e = absurd (omega arith)
passes-at test (suc n) i below e = ground (arith, passes-at test n i)

and_digits : ℕ → ℕ → ℕ
and_digits a b = bitwise (λ b. 0) min a b

digits_step : (a b : ℕ) → and_digits a b ≡ and_digits (a / 2) (b / 2) * 2 + min (a % 2) (b % 2)
unfolding and_digits
digits_step zero b = omega arith
digits_step (suc a) b =
    ap (λ x. x * 2 + min (suc a % 2) (b % 2))
      (digits_fuel (λ b. 0) min a (suc a / 2) (suc a / 2) (b / 2) (omega arith) (omega arith))

and_step : (x y : ℕ) → bit_and x y ≡ bit_and (x / 2) (y / 2) * 2 + min (x % 2) (y % 2)
unfolding and_digits
and_step a b =
    (λ i. bit_and-bitwise a b i)
    ∙ digits_step a b
    ∙ ap (λ x. x * 2 + min (a % 2) (b % 2)) (sym (λ i. bit_and-bitwise (a / 2) (b / 2) i))

-- nothing is left under a mask of 0
vanishes : (bound x : ℕ) → x < bound → bit_and x 0 ≡ 0
vanishes zero x h = absurd (omega arith)
vanishes (suc bound) x h = elim (dec_lt 0 x) [
  | yes p ↦
      and_step x 0
      ∙ ap (λ y. y * 2 + min (x % 2) 0) (vanishes bound (x / 2) (omega arith))
      ∙ omega arith
  | no p ↦ let none_set : x ≡ 0 = omega (arith, p) in rw none_set refl
]

pow_pos : (m : ℕ) → 0 < 2 ^ m
pow_pos m = one-le-pow m 2 (omega arith)

double : (x p q r : ℕ) → q * p + r ≡ x / 2 → x ≡ q * (p + p) + (r * 2 + x % 2)
double x p q r h = rw (mul-add q p p) (omega (arith, h))

-- a remainder, one digit at a time
mod_double : (x p : ℕ) → 0 < p → x % (p + p) ≡ x / 2 % p * 2 + x % 2
mod_double x p h =
    let q = x / 2 / p in
    let r = x / 2 % p in
    let parts : q * p + r ≡ x / 2 = div-add-mod' (x / 2) p in
    let whole : x ≡ q * (p + p) + (r * 2 + x % 2) = double x p (x / 2 / p) (x / 2 % p) parts in
    let small : r < p = mod-lt (x / 2) h in
    ap (λ y. y % (p + p)) whole
    ∙ mul-add-mod_self_right q (p + p) (r * 2 + x % 2)
    ∙ mod-eq_of_lt (omega arith)

ones_step :
    (x p : ℕ) → 0 < p → bit_and (x / 2) (p - 1) ≡ x / 2 % p → bit_and x (p + p - 1) ≡ x % (p + p)
ones_step x p h ih =
    and_step x (p + p - 1)
    ∙ ap₂ (λ y z. bit_and (x / 2) y * 2 + min (x % 2) z) {x = (p + p - 1) / 2} {y = p - 1}
        {u = (p + p - 1) % 2} {v = 1} (omega arith) (omega arith)
    ∙ ap (λ y. y * 2 + min (x % 2) 1) ih
    ∙ ap (λ y. x / 2 % p * 2 + y) (ground arith)
    ∙ sym (mod_double x p h)

-- `x & (2^m - 1)`
pub bit_and-ones : (m x : ℕ) → bit_and x (2 ^ m - 1) ≡ x % 2 ^ m
bit_and-ones zero x = omega (arith, vanishes (suc x) x (omega arith))
bit_and-ones (suc m) x =
    rw (two-pow-succ m) (ones_step x (2 ^ m) (pow_pos m) (bit_and-ones m (x / 2)))

even_step : (x m w : ℕ) → m ≡ w * 2 → bit_and x m ≡ bit_and (x / 2) w * 2
even_step x m w e =
    and_step x m
    ∙ ap₂ (λ y z. bit_and (x / 2) y * 2 + min (x % 2) z) {x = m / 2} {y = w} {u = m % 2} {v = 0}
        (omega arith) (omega arith)
    ∙ omega arith

regroup : (a p : ℕ) → a * p * 2 ≡ a * (p + p)
regroup a p = rw (mul-add a p p) (omega arith)

-- a mask with `n` zeros at its low end
pub bit_and-shifted : (n x y : ℕ) → bit_and x (y * 2 ^ n) ≡ bit_and (x / 2 ^ n) y * 2 ^ n
bit_and-shifted zero x y =
    ap (bit_and x) {x = y * 2 ^ 0} {y = y} (omega arith)
    ∙ ap (λ z. bit_and z y) {x = x} {y = x / 2 ^ 0} (omega arith)
    ∙ omega arith
bit_and-shifted (suc n) x y =
    let halved : x / 2 / 2 ^ n ≡ x / 2 ^ suc n =
      div-div-eq-div-mul x 2 (2 ^ n) ∙ ap (λ p. x / p) (sym (pow-succ' 2 n)) in
    even_step x (y * 2 ^ suc n) (y * 2 ^ n)
      (rw (two-pow-succ n) (rw (mul-add y (2 ^ n) (2 ^ n)) (omega arith)))
    ∙ ap (λ z. z * 2) (bit_and-shifted n (x / 2) y ∙ ap (λ z. bit_and z y * 2 ^ n) halved)
    ∙ regroup (bit_and (x / 2 ^ suc n) y) (2 ^ n)
    ∙ ap (λ p. bit_and (x / 2 ^ suc n) y * p) (sym (two-pow-succ n))

-- `x & (((1 << m) - 1) << n)`: the field of `m` bits from bit `n` on, in its place
pub bit_and-field : (m n x : ℕ) → bit_and x ((2 ^ m - 1) * 2 ^ n) ≡ x / 2 ^ n % 2 ^ m * 2 ^ n
bit_and-field m n x =
    bit_and-shifted n x (2 ^ m - 1) ∙ ap (λ y. y * 2 ^ n) (bit_and-ones m (x / 2 ^ n))

-- a multiple of `p` and a rest
pub block_parts : (p q r : ℕ) → 0 < p → r < p → ((q * p + r) / p ≡ q) × ((q * p + r) % p ≡ r)
block_parts p q r h k = (
  rw (add_comm (q * p) r)
      (add-mul-div_right r q h ∙ ap (λ x. x + q) (div-eq_of_lt k) ∙ omega arith),
  mul-add-mod_self_right q p r ∙ mod-eq_of_lt k,
)
