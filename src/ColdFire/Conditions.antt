-- ===== src/ColdFire/Conditions.antt =====
-- src/cpu/coldfire.rs, `update_flags` and `get_cc_cond`: what the flags say of a result, and what a
-- condition says of the operands of the comparison before it.
use monte_lauro_ml_cd32_ppc.Base.{
  ℕ, ◌+◌, ◌*◌, ◌/◌, ◌%◌, ◌^◌, ◌<◌, Bool, true, false, not, ◌||◌, if◌then◌else◌, ltb, leb, ◌==◌,
  bits, sub32, ◌≡◌, refl, ◌∙◌, ap₂, suc, zero, arith, ◌⊎◌,
}
use monte_lauro_ml_cd32_ppc.Base.Int.{signed, ltb_ℤ}
use monte_lauro_ml_cd32_ppc.Base.Run.{value}
use monte_lauro_ml_cd32_ppc.Base.Exec.{ok, pure, ◌>>=◌, continue}
use monte_lauro_ml_cd32_ppc.Bus.Interface.{BusInterface}
use monte_lauro_ml_cd32_ppc.ColdFire.Operands.{decode_ea, ea_read}
use monte_lauro_ml_cd32_ppc.ColdFire.{
  Core, mode_of, dn_of, reg_of, get_regs, set_regs, update_flags, flags, low, is_negative,
  get_cc_cond,
}
use monte_lauro_ml_cd32_ppc.ColdFire.Arith.{cmp_overflow, op_cmp}

-- a flag in its bit
abbrev bit : Bool → ℕ
bit b = if b then 1 else 0

bit_lt_two : (b : Bool) → bit b < 2
bit_lt_two true = omega arith
bit_lt_two false = omega arith

fields_of_sum :
    (q z n c v : ℕ)
    → z < 2
    → n < 2
    → c < 2
    → v < 2
    → let s = q * 16 + z * 4 + n * 8 + c + v * 2 in
      (bits 0 1 s ≡ c) × (bits 1 1 s ≡ v) × (bits 2 1 s ≡ z) × (bits 3 1 s ≡ n) × (s / 16 ≡ q)
fields_of_sum q z n c v hz hn hc hv =
    (omega arith, omega arith, omega arith, omega arith, omega arith)

flags_sum :
    (val size : ℕ) (carry overflow : Bool) (sr : ℕ)
    → flags val size carry overflow sr
      ≡ sr / 16 * 16
        + bit (low size val == 0) * 4
        + bit (is_negative (low size val)) * 8
        + bit carry
        + bit overflow * 2
unfolding flags
flags_sum val size carry overflow sr = ground arith

-- After an instruction that sets the flags, C and V are what it says, Z tells whether the low bits of
-- its result are 0, N is bit 31 of them, and what is above the flags N, Z, V and C is kept.
flags_fields :
    (val size : ℕ) (carry overflow : Bool) (sr : ℕ)
    → let f = flags val size carry overflow sr in
      (bits 0 1 f ≡ bit carry)
      × (bits 1 1 f ≡ bit overflow)
      × (bits 2 1 f ≡ bit (low size val == 0))
      × (bits 3 1 f ≡ bit (is_negative (low size val)))
      × (f / 16 ≡ sr / 16)
flags_fields val size carry overflow sr = rw (flags_sum val size carry overflow sr) (
    fields_of_sum (sr / 16) (bit (low size val == 0)) (bit (is_negative (low size val))) (bit carry)
      (bit overflow) (bit_lt_two _) (bit_lt_two _) (bit_lt_two carry) (bit_lt_two overflow))

-- An instruction on a byte or on a half never sets the flag N.
narrow_never_negative :
    (val size : ℕ) (carry overflow : Bool) (sr : ℕ)
    → (size ≡ 1) ⊎ (size ≡ 2)
    → get_cc_cond 0xB (flags val size carry overflow sr) ≡ false
unfolding get_cc_cond
narrow_never_negative val size carry overflow sr h =
    let (e0, e1, e2, e3, e4) = flags_fields val size carry overflow sr in ground arith

-- Of a condition and the next one, exactly one holds, whatever the status register is.
pub conditions_complement :
    (k sr : ℕ) → k < 8 → get_cc_cond (2 * k + 1) sr ≡ not (get_cc_cond (2 * k) sr)
unfolding get_cc_cond
conditions_complement zero sr h = refl
conditions_complement (suc zero) sr h = ground arith
conditions_complement (suc (suc zero)) sr h = ground arith
conditions_complement (suc (suc (suc zero))) sr h = ground arith
conditions_complement (suc (suc (suc (suc zero)))) sr h = ground arith
conditions_complement (suc (suc (suc (suc (suc zero))))) sr h = ground arith
conditions_complement (suc (suc (suc (suc (suc (suc zero)))))) sr h = ground arith
conditions_complement (suc (suc (suc (suc (suc (suc (suc zero))))))) sr h = ground arith
conditions_complement (suc (suc (suc (suc (suc (suc (suc (suc k)))))))) sr h = absurd (omega arith)

bit_is_one : (b : Bool) → (bit b == 1) ≡ b
bit_is_one true = refl
bit_is_one false = refl

bits_differ : (a b : Bool) → ((bit a + bit b) % 2 == 1) ≡ (if a then not b else b)
bits_differ true true = refl
bits_differ true false = refl
bits_differ false true = refl
bits_differ false false = refl

difference_is_zero : (d s : ℕ) → d < 2 ^ 32 → s < 2 ^ 32 → (low 4 (sub32 d s) == 0) ≡ (d == s)
difference_is_zero d s hd hs = ground arith

below_or_same : (d s : ℕ) → (ltb d s || (d == s)) ≡ leb d s
below_or_same d s = ground arith

signed_below :
    (d s : ℕ)
    → d < 2 ^ 32
    → s < 2 ^ 32
    → (if is_negative (low 4 (sub32 d s))
        then not (cmp_overflow d s (sub32 d s))
        else cmp_overflow d s (sub32 d s))
      ≡ ltb_ℤ (signed 32 d) (signed 32 s)
unfolding cmp_overflow
signed_below d s hd hs = ground arith

tests_of_compare :
    (d s f : ℕ)
    → d < 2 ^ 32
    → s < 2 ^ 32
    → bits 0 1 f ≡ bit (ltb d s)
    → bits 1 1 f ≡ bit (cmp_overflow d s (sub32 d s))
    → bits 2 1 f ≡ bit (low 4 (sub32 d s) == 0)
    → bits 3 1 f ≡ bit (is_negative (low 4 (sub32 d s)))
    → (get_cc_cond 0x7 f ≡ (d == s))
      × (get_cc_cond 0x5 f ≡ ltb d s)
      × (get_cc_cond 0x3 f ≡ leb d s)
      × (get_cc_cond 0xD f ≡ ltb_ℤ (signed 32 d) (signed 32 s))
unfolding get_cc_cond
tests_of_compare d s f hd hs e0 e1 e2 e3 = (
  rw e2 (bit_is_one _ ∙ difference_is_zero d s hd hs),
  rw e0 (bit_is_one _),
  rw e0 (
      rw e2 (
        ap₂ ◌||◌ (bit_is_one _) (bit_is_one _ ∙ difference_is_zero d s hd hs) ∙ below_or_same d s)),
  rw e3 (rw e1 (bits_differ _ _ ∙ signed_below d s hd hs)),
)

compare_conditions :
    (dst src sr : ℕ)
    → dst < 2 ^ 32
    → src < 2 ^ 32
    → let res = sub32 dst src in
      let f = flags res 4 (ltb dst src) (cmp_overflow dst src res) sr in
      (get_cc_cond 0x7 f ≡ (dst == src))
      × (get_cc_cond 0x5 f ≡ ltb dst src)
      × (get_cc_cond 0x3 f ≡ leb dst src)
      × (get_cc_cond 0xD f ≡ ltb_ℤ (signed 32 dst) (signed 32 src))
compare_conditions dst src sr hd hs =
    let (e0, e1, e2, e3, e4) =
      flags_fields (sub32 dst src) 4 (ltb dst src) (cmp_overflow dst src (sub32 dst src)) sr in
    tests_of_compare dst src _ hd hs e0 e1 e2 e3

module _ ⦃bus : BusInterface⦄ where
  abbrev pub with_sr : ℕ → Core → Core
  with_sr f s = (record s.0 { regs = record s.0.regs { sr = f } }, s.1)

  -- A comparison of two data registers of 32 bits changes the flags only, and then the condition EQ
  -- holds if they are equal, CS and LS if the one of the instruction's high field is below the other,
  -- or not above it, as a number, and LT if it is below it as a signed integer.
  pub op_cmp-conditions :
      (op : ℕ) (s : Core)
      → mode_of op ≡ 0
      → s.0.regs.d (dn_of op) < 2 ^ 32
      → s.0.regs.d (reg_of op) < 2 ^ 32
      → let dst = s.0.regs.d (dn_of op) in
        let src = s.0.regs.d (reg_of op) in
        let res = sub32 dst src in
        let f = flags res 4 (ltb dst src) (cmp_overflow dst src res) s.0.regs.sr in
        (op_cmp op s ≡ value (with_sr f s, ok 1))
        × (get_cc_cond 0x7 f ≡ (dst == src))
        × (get_cc_cond 0x5 f ≡ ltb dst src)
        × (get_cc_cond 0x3 f ≡ leb dst src)
        × (get_cc_cond 0xD f ≡ ltb_ℤ (signed 32 dst) (signed 32 src))
  unfolding op_cmp decode_ea ea_read get_regs set_regs update_flags pure ◌>>=◌ continue
  op_cmp-conditions op s h hd hs =
      let (eq, cs, ls, lt) =
        compare_conditions (s.0.regs.d (dn_of op)) (s.0.regs.d (reg_of op)) s.0.regs.sr hd hs in
      (rw h refl, eq, cs, ls, lt)
