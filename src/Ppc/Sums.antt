-- ===== src/Ppc/Sums.antt =====
-- src/cpu/ppc603e.rs: what the subtractions leave.
use monte_lauro_ml_cd32_ppc.Base.{
  ℕ, ◌^◌, ◌<◌, leb, bits, add32, sub32, sext16, test_bit, ◌≡◌, refl, arith,
}
use monte_lauro_ml_cd32_ppc.Bus.Interface.{BusInterface}
use monte_lauro_ml_cd32_ppc.Ppc.{Core, Reaches, on_regs, rd_of, ra_of, rb_of}
use monte_lauro_ml_cd32_ppc.Ppc.Arith.{op_subf, op_subfc, op_subfe, op_subfic, op_neg}

module _ ⦃bus : BusInterface⦄ where
  -- SUBF and NEG leave the difference of their operands, and 0 less their operand, in 32 bits, while
  -- SUBFC, which should leave the same difference as SUBF, leaves two less, and SUBFE, which should
  -- leave the difference less one plus the carry, leaves the difference plus the carry.
  pub subtractions :
      (insn : ℕ) (s : Core)
      → let rd = rd_of insn in
        let a = s.0.regs.gpr (ra_of insn) in
        let b = s.0.regs.gpr (rb_of insn) in
        a < 2 ^ 32
        → b < 2 ^ 32
        → Reaches (op_subf insn s) (λ t. t.0.regs.gpr rd ≡ sub32 b a)
          × Reaches (op_neg insn s) (λ t. t.0.regs.gpr rd ≡ sub32 0 a)
          × Reaches (op_subfc insn s) (λ t. t.0.regs.gpr rd ≡ sub32 (sub32 b a) 2)
          × Reaches
              (op_subfe insn s)
              (λ t. t.0.regs.gpr rd ≡ add32 (sub32 b a) (bits 29 1 s.0.regs.xer))
  unfolding op_subf op_neg op_subfc op_subfe on_regs
  subtractions insn s ha hb = (
    record { after = _; done = refl; holds = ground arith },
    record { after = _; done = refl; holds = ground arith },
    record { after = _; done = refl; holds = ground arith },
    record { after = _; done = refl; holds = ground arith },
  )

  -- SUBFIC leaves the immediate less its operand, in 32 bits, and sets the carry exactly if the operand
  -- is not above the immediate.
  op_subfic_lem :
      (insn : ℕ) (s : Core)
      → s.0.regs.gpr (ra_of insn) < 2 ^ 32
      → Reaches (op_subfic insn s) (λ t.
        (t.0.regs.gpr (rd_of insn) ≡ sub32 (sext16 insn) (s.0.regs.gpr (ra_of insn)))
        × (test_bit 29 t.0.regs.xer ≡ leb (s.0.regs.gpr (ra_of insn)) (sext16 insn)))
  unfolding op_subfic on_regs
  op_subfic_lem insn s h = record { after = _; done = refl; holds = ground arith }
