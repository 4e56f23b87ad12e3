-- ===== src/Ppc/Rotations.antt =====
-- src/cpu/ppc603e.rs: the mask of a rotation, and the field that RLWINM takes.
use monte_lauro_ml_cd32_ppc.Base.{
  ℕ, ◌+◌, ◌-◌, ◌*◌, ◌/◌, ◌%◌, ◌^◌, ◌<◌, ◌≤◌, Bool, true, not, ◌||◌, leb, ◌==◌, bits, test_bit,
  update, ◌≡◌, refl, ◌∙◌, ap, ap₂, sym, arith, le→leb, Bool-cases, inl, inr,
}
use Prim.Native.Nat.{bit_and}
use native.Mathlib.Nat.{
  add-mul, mul_assoc, mul-lt-mul_of_pos_right, mul-add-mod_self_right, mod-eq_of_lt, div-add-mod',
  mod-lt, one-le-pow, mul_comm, div-lt_iff_lt-mul, mod-mod,
}
use monte_lauro_ml_cd32_ppc.Base.Masks.{passes, passes-at, bit_and-field, block_parts}
use monte_lauro_ml_cd32_ppc.Bus.Interface.{BusInterface}
use monte_lauro_ml_cd32_ppc.Ppc.{Core, PpcRegs, Reaches, on_regs, rd_of, ra_of}
use monte_lauro_ml_cd32_ppc.Ppc.Logic.{make_mask, rotate_left, op_rlwinm, recorded}

-- the ones from bit `mb` to bit `me`, counted from the high end
abbrev ones : ℕ → ℕ → ℕ
ones mb me = (2 ^ (me + 1 - mb) - 1) * 2 ^ (31 - me)

abbrev mask_is_ones : ℕ → ℕ → Bool
mask_is_ones mb me = not (leb mb me) || make_mask mb me == ones mb me

mask_table : passes (λ mb. passes (mask_is_ones mb) 32) 32 ≡ true
unfolding passes make_mask
mask_table = refl

from_table : (b : Bool) (x y : ℕ) → (not b || x == y) ≡ true → b ≡ true → x ≡ y
from_table b x y h e = ground arith

make_mask-ones : (mb me : ℕ) → mb ≤ me → me < 32 → make_mask mb me ≡ ones mb me
make_mask-ones mb me h k =
    let row = passes-at (λ mb. passes (mask_is_ones mb) 32) 32 mb (omega arith) mask_table in
    from_table (leb mb me) _ _ (passes-at (mask_is_ones mb) 32 me k row) (le→leb mb me h)

powers_table : passes (λ n. 2 ^ (32 - n) * 2 ^ n == 2 ^ 32) 32 ≡ true
unfolding passes
powers_table = refl

powers : (n : ℕ) → n < 32 → 2 ^ (32 - n) * 2 ^ n ≡ 2 ^ 32
powers n h =
    from_table true _ _ (passes-at (λ n. 2 ^ (32 - n) * 2 ^ n == 2 ^ 32) 32 n h powers_table) refl

-- what is shifted out at the top of `q p`
shifted_out : (x p q : ℕ) → 0 < p → 0 < q → x * p % (q * p) ≡ x % q * p
shifted_out x p q h k =
    ap (λ y. y * p % (q * p)) (sym (div-add-mod' x q))
    ∙ ap (λ y. y % (q * p))
        (add-mul (x / q * q) (x % q) p ∙ ap (λ y. y + x % q * p) (mul_assoc (x / q) q p))
    ∙ mul-add-mod_self_right (x / q) (q * p) (x % q * p)
    ∙ mod-eq_of_lt (mul-lt-mul_of_pos_right (mod-lt x k) h)

pow_pos : (n : ℕ) → 0 < 2 ^ n
pow_pos n = one-le-pow n 2 (omega arith)

quotient-lt : (x p q : ℕ) → 0 < q → x < q * p → x / q < p
quotient-lt x p q h k = (div-lt_iff_lt-mul h).1 (rw (mul_comm p q) k)

-- a rotation exchanges the two parts of a word
rotate_left-parts :
    (n x : ℕ)
    → n < 32
    → x < 2 ^ 32
    → (rotate_left n x / 2 ^ n ≡ x % 2 ^ (32 - n)) × (rotate_left n x % 2 ^ n ≡ x / 2 ^ (32 - n))
unfolding rotate_left
rotate_left-parts n x h k =
    let p = 2 ^ n in
    let q = 2 ^ (32 - n) in
    let low : x / q < p = quotient-lt x p q (pow_pos (32 - n)) (rw (powers n h) k) in
    let high : x * p % 2 ^ 32 ≡ x % q * p =
      ap (λ m. x * p % m) (sym (powers n h)) ∙ shifted_out x p q (pow_pos n) (pow_pos (32 - n)) in
    rw high (block_parts p (x % q) (x / q) (pow_pos n) low)

-- the field that a rotation by `sh` with the mask from `mb` to `me` leaves
abbrev masked : ℕ → ℕ → ℕ → ℕ → ℕ
masked sh mb me x = bit_and (rotate_left sh x) (make_mask mb me)

masked-field :
    (sh mb me x : ℕ)
    → mb ≤ me
    → me < 32
    → masked sh mb me x ≡ rotate_left sh x / 2 ^ (31 - me) % 2 ^ (me + 1 - mb) * 2 ^ (31 - me)
masked-field sh mb me x h k =
    ap (bit_and (rotate_left sh x)) (make_mask-ones mb me h k)
    ∙ bit_and-field (me + 1 - mb) (31 - me) (rotate_left sh x)

field_at : ℕ → ℕ → ℕ → ℕ
field_at x low width = x / 2 ^ low % 2 ^ width * 2 ^ low

masked-left : (n x : ℕ) → n < 32 → x < 2 ^ 32 → masked n 0 (31 - n) x ≡ x * 2 ^ n % 2 ^ 32
unfolding field_at
masked-left n x h k =
    let q = 2 ^ (32 - n) in
    masked-field n 0 (31 - n) x (omega arith) (omega arith)
    ∙ ap₂ (field_at (rotate_left n x)) {x = 31 - (31 - n)} {y = n} {u = 31 - n + 1 - 0} {v = 32 - n}
        (omega arith) (omega arith)
    ∙ ap (λ y. y % q * 2 ^ n) (rotate_left-parts n x h k).0
    ∙ ap (λ y. y * 2 ^ n) (mod-mod x q)
    ∙ sym (shifted_out x (2 ^ n) q (pow_pos n) (pow_pos (32 - n)))
    ∙ ap (λ m. x * 2 ^ n % m) (powers n h)

masked-right : (n x : ℕ) → 0 < n → n < 32 → x < 2 ^ 32 → masked (32 - n) n 31 x ≡ x / 2 ^ n
masked-right n x h0 h k =
    masked-field (32 - n) n 31 x (omega arith) (omega arith)
    ∙ unit_field (rotate_left (32 - n) x) (2 ^ (32 - n))
    ∙ (rotate_left-parts (32 - n) x (omega arith) k).1
    ∙ ap (λ m. x / 2 ^ m) {x = 32 - (32 - n)} {y = n} (omega arith)
  where
    unit_field : (y p : ℕ) → y / 1 % p * 1 ≡ y % p
    unit_field y p = ap (λ z. z % p * 1) {x = y / 1} {y = y} (omega arith) ∙ omega arith

update_same : (f : ℕ → ℕ) (i v : ℕ) → update f i v i ≡ v
update_same f i v = ground arith

recorded-gpr : (insn : ℕ) (r : PpcRegs) → (recorded insn r).gpr ≡ r.gpr
recorded-gpr insn r = elim (Bool-cases (test_bit 0 insn)) [ inl e ↦ rw e refl | inr e ↦ rw e refl ]

module _ ⦃bus : BusInterface⦄ where
  op_rlwinm-masked :
      (insn sh mb me : ℕ) (s : Core)
      → bits 11 5 insn ≡ sh
      → bits 6 5 insn ≡ mb
      → bits 1 5 insn ≡ me
      → Reaches (op_rlwinm insn s) (λ t.
        t.0.regs.gpr
        ≡ update s.0.regs.gpr (ra_of insn) (masked sh mb me (s.0.regs.gpr (rd_of insn))))
  unfolding op_rlwinm on_regs
  op_rlwinm-masked insn sh mb me s h1 h2 h3 = record {
    after = _;
    done = refl;
    holds = rw (← h1) (rw (← h2) (rw (← h3) (recorded-gpr insn _)));
  }

  -- RLWINM as the shifts that assemblers write with it, by n from 1 to 31: rotated by n under the mask
  -- from 0 to 31 - n it shifts a register left, in 32 bits, and rotated by 32 - n under the mask from n to
  -- 31 it shifts it right; no other general register changes.
  pub op_rlwinm-shifts :
      (left right n : ℕ) (s : Core)
      → 0 < n
      → n < 32
      → (bits 11 5 left ≡ n) × (bits 6 5 left ≡ 0) × (bits 1 5 left ≡ 31 - n)
      → (bits 11 5 right ≡ 32 - n) × (bits 6 5 right ≡ n) × (bits 1 5 right ≡ 31)
      → s.0.regs.gpr (rd_of left) < 2 ^ 32
      → s.0.regs.gpr (rd_of right) < 2 ^ 32
      → Reaches (op_rlwinm left s) (λ t.
        t.0.regs.gpr
        ≡ update s.0.regs.gpr (ra_of left) (s.0.regs.gpr (rd_of left) * 2 ^ n % 2 ^ 32))
        × Reaches (op_rlwinm right s) (λ t.
          t.0.regs.gpr ≡ update s.0.regs.gpr (ra_of right) (s.0.regs.gpr (rd_of right) / 2 ^ n))
  op_rlwinm-shifts left right n s h0 h (l1, l2, l3) (r1, r2, r3) hl hr =
      let to_left = op_rlwinm-masked left n 0 (31 - n) s l1 l2 l3 in
      let to_right = op_rlwinm-masked right (32 - n) n 31 s r1 r2 r3 in
      (
        record {
          after = to_left.after;
          done = to_left.done;
          holds =
              to_left.holds
              ∙ ap (update s.0.regs.gpr (ra_of left))
                  (masked-left n (s.0.regs.gpr (rd_of left)) h hl);
        },
        record {
          after = to_right.after;
          done = to_right.done;
          holds =
              to_right.holds
              ∙ ap (update s.0.regs.gpr (ra_of right))
                  (masked-right n (s.0.regs.gpr (rd_of right)) h0 h hr);
        },
      )
