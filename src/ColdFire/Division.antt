-- ===== src/ColdFire/Division.antt =====
-- src/cpu/coldfire.rs: multiplication and division.
use monte_lauro_ml_cd32_ppc.Base.{
  ℕ, ◌+◌, ◌*◌, ◌/◌, ◌%◌, ◌^◌, Bool, true, false, if◌then◌else◌, ◌==◌, u16, u32, sub32, test_bit,
}
use monte_lauro_ml_cd32_ppc.Base.Int.{signed, ◌*ℤ◌, pattern, quotient, remainder}
use monte_lauro_ml_cd32_ppc.Base.Exec.{pure, raise, crash, ◌>>=◌, ◌>>◌}
use monte_lauro_ml_cd32_ppc.Bus.Interface.{BusInterface}
use monte_lauro_ml_cd32_ppc.ColdFire.{
  illegal_instruction, mode_of, reg_of, dn_of, Cf, get_regs, set_d,
}
use monte_lauro_ml_cd32_ppc.ColdFire.Operands.{decode_ea, ea_read}

-- The register after a division by `divisor`, whose low half counts: the remainder above the quotient.
unfoldable pub divided : Bool → ℕ → ℕ → ℕ
unfolding quotient remainder
divided sign dividend divisor =
    if sign
    then pattern 16 (remainder (signed 32 dividend) (signed 16 (u16 divisor))) * 2 ^ 16
      + pattern 16 (quotient (signed 32 dividend) (signed 16 (u16 divisor)))
    else u16 (dividend % u16 divisor) * 2 ^ 16 + u16 (dividend / u16 divisor)

-- The product that MULS and MULU leave: `(dst as i32 as i64) * (src as i16 as i32 as i64)` or
-- `dst.wrapping_mul(src & 0xFFFF)`.
unfoldable product : Bool → ℕ → ℕ → ℕ
unfolding ◌*ℤ◌
product sign dst src =
    if sign then pattern 32 (signed 32 dst *ℤ signed 16 (u16 src)) else u32 (dst * u16 src)

module _ ⦃bus : BusInterface⦄ where
  -- A divisor from an operand is tested whole, and then divides by its low half.
  unfoldable pub op_div : ℕ → Cf ℕ
  unfolding divided
  op_div op =
      let mode = mode_of op in
      let sign = test_bit 8 op in
      get_regs >>= λ r.
      (if mode == 0
        then pure (u16 (r.d (reg_of op)))
        else (do ea ← decode_ea mode (reg_of op) 2; ea_read ea 2))
      >>= λ divisor. get_regs >>= λ r1.
          if divisor == 0
          then raise (illegal_instruction op (sub32 r1.pc 4))
          else if u16 divisor == 0
          then crash
          else (do set_d (dn_of op) (divided sign (r1.d (dn_of op)) divisor); pure 1)

  unfoldable pub mul_instr : ℕ → Bool → Cf ℕ
  unfolding product
  mul_instr op sign = do
    r ← get_regs
    src ←
        (if mode_of op == 0
          then pure (r.d (reg_of op))
          else (do ea ← decode_ea (mode_of op) (reg_of op) 2; ea_read ea 2))
    r1 ← get_regs
    set_d (dn_of op) (product sign (r1.d (dn_of op)) src)
    pure 1

  unfoldable pub op_mul_unsigned : ℕ → Cf ℕ
  unfolding mul_instr
  op_mul_unsigned op = mul_instr op false

  unfoldable pub op_mul_signed : ℕ → Cf ℕ
  unfolding mul_instr
  op_mul_signed op = mul_instr op true
