-- ===== src/Ppc/Arith.antt =====
-- src/cpu/ppc603e.rs: addition, subtraction, multiplication and division.
use monte_lauro_ml_cd32_ppc.Base.{
  ℕ, ◌*◌, ◌/◌, ◌^◌, ◌&&◌, ◌||◌, if◌then◌else◌, ◌==◌, u32, add32, bits, sext16,
}
use monte_lauro_ml_cd32_ppc.Base.Int.{signed, ◌*ℤ◌, pattern, quotient}
use monte_lauro_ml_cd32_ppc.Bus.Interface.{BusInterface}
use monte_lauro_ml_cd32_ppc.Ppc.{
  PpcRegs, rd_of, ra_of, rb_of, set_gpr, gpr_or_zero, set_carry, carries, not32, plus_si, Ppc,
  on_regs,
}

-- an instruction that puts a value of two registers into a third
abbrev from_two : (ℕ → ℕ → ℕ) → ℕ → PpcRegs → PpcRegs
from_two f insn r = set_gpr (rd_of insn) (f (r.gpr (ra_of insn)) (r.gpr (rb_of insn))) r

-- `(a as i32 as i64 * b as i32 as i64) >> 32`
unfoldable high_product : ℕ → ℕ → ℕ
unfolding ◌*ℤ◌
high_product a b = pattern 64 (signed 32 a *ℤ signed 32 b) / 2 ^ 32

unfoldable divided_signed : ℕ → ℕ → ℕ
unfolding quotient
divided_signed a b =
    if b == 0 || (a == 0x8000_0000 && b == 0xFFFF_FFFF)
    then 0
    else pattern 32 (quotient (signed 32 a) (signed 32 b))

module _ ⦃bus : BusInterface⦄ where
  unfoldable pub op_addis : ℕ → Ppc ℕ
  op_addis insn = on_regs (λ r.
      set_gpr (rd_of insn) (add32 (gpr_or_zero (ra_of insn) r) (u32 (sext16 insn * 2 ^ 16))) r)

  unfoldable pub op_addi : ℕ → Ppc ℕ
  op_addi insn = on_regs (λ r. set_gpr (rd_of insn) (plus_si (gpr_or_zero (ra_of insn) r) insn) r)

  unfoldable pub op_addic : ℕ → Ppc ℕ
  op_addic insn = on_regs (λ r.
      let a = r.gpr (ra_of insn) in
      set_carry (carries a (sext16 insn)) (set_gpr (rd_of insn) (plus_si a insn) r))

  unfoldable pub op_subfic : ℕ → Ppc ℕ
  op_subfic insn = on_regs (λ r.
      let a = not32 (r.gpr (ra_of insn)) in
      let res = plus_si a insn in
      set_carry (carries a (sext16 insn) || carries res 1) (set_gpr (rd_of insn) (add32 res 1) r))

  -- `(a as i32).wrapping_mul(si as i32)`
  unfoldable pub op_mulli : ℕ → Ppc ℕ
  unfolding ◌*ℤ◌
  op_mulli insn = on_regs (λ r.
      set_gpr (rd_of insn)
        (pattern 32 (signed 32 (gpr_or_zero (ra_of insn) r) *ℤ signed 32 (sext16 insn))) r)

  -- `!a.wrapping_add(1)` is the complement of the sum.
  unfoldable pub op_subfc : ℕ → Ppc ℕ
  op_subfc insn = on_regs (λ r.
      let a = not32 (add32 (r.gpr (ra_of insn)) 1) in
      let b = r.gpr (rb_of insn) in set_carry (carries b a) (set_gpr (rd_of insn) (add32 b a) r))

  unfoldable pub op_addc : ℕ → Ppc ℕ
  op_addc insn =
      on_regs
        (λ r. set_carry (carries (r.gpr (ra_of insn)) (r.gpr (rb_of insn))) (from_two add32 insn r))

  unfoldable pub op_add : ℕ → Ppc ℕ
  op_add insn = on_regs (from_two add32 insn)

  unfoldable pub op_neg : ℕ → Ppc ℕ
  op_neg insn = on_regs (λ r. set_gpr (rd_of insn) (add32 (not32 (r.gpr (ra_of insn))) 1) r)

  unfoldable pub op_subf : ℕ → Ppc ℕ
  op_subf insn = on_regs (from_two (λ a b. add32 (add32 (not32 a) b) 1) insn)

  unfoldable pub op_subfe : ℕ → Ppc ℕ
  op_subfe insn = on_regs (λ r.
      let carry = bits 29 1 r.xer in
      let a = not32 (r.gpr (ra_of insn)) in
      let b = r.gpr (rb_of insn) in
      let res = add32 b (add32 a carry) in
      set_carry (carries a carry || carries b (add32 a carry))
        (set_gpr (rd_of insn) (add32 res 1) r))

  unfoldable pub op_addme : ℕ → Ppc ℕ
  op_addme insn = on_regs (λ r.
      let carry = bits 29 1 r.xer in
      let a = r.gpr (ra_of insn) in
      let tmp = add32 a 0xFFFF_FFFF in
      set_carry (carries a 0xFFFF_FFFF || carries tmp carry)
        (set_gpr (rd_of insn) (add32 tmp carry) r))

  unfoldable pub op_mulhw : ℕ → Ppc ℕ
  unfolding high_product
  op_mulhw insn = on_regs (from_two high_product insn)

  unfoldable pub op_mulhwu : ℕ → Ppc ℕ
  op_mulhwu insn = on_regs (from_two (λ a b. a * b / 2 ^ 32) insn)

  unfoldable pub op_mullw : ℕ → Ppc ℕ
  op_mullw insn = on_regs (from_two (λ a b. u32 (a * b)) insn)

  unfoldable pub op_divw : ℕ → Ppc ℕ
  unfolding divided_signed
  op_divw insn = on_regs (from_two divided_signed insn)

  unfoldable pub op_divwu : ℕ → Ppc ℕ
  op_divwu insn = on_regs (from_two (λ a b. if b == 0 then 0 else a / b) insn)
