-- ===== src/Ppc/Dispatch.antt =====
-- src/cpu/ppc603e.rs, `dispatch`, `op_xform` and `step`. A `match` on an opcode is a table of its arms.
use monte_lauro_ml_cd32_ppc.Base.{
  ℕ, ◌&&◌, Bool, false, List, [], ◌∷◌, if◌then◌else◌, bits, add32, sub32, test_bit,
}
use monte_lauro_ml_cd32_ppc.Base.Run.{value}
use monte_lauro_ml_cd32_ppc.Base.Exec.{ok, pure, raise, ◌>>=◌, ◌>>◌}
use monte_lauro_ml_cd32_ppc.Base.Arms.{select}
use monte_lauro_ml_cd32_ppc.Bus.Interface.{BusInterface}
use monte_lauro_ml_cd32_ppc.Ppc.{Core, Ppc, illegal_instruction, get_regs, set_regs, reading}
use monte_lauro_ml_cd32_ppc.Ppc.Mmu.{translated}
use monte_lauro_ml_cd32_ppc.Ppc.Arith.{
  op_addis, op_addi, op_addic, op_subfic, op_mulli, op_subfc, op_addc, op_add, op_neg, op_subf,
  op_subfe, op_addme, op_mulhw, op_mulhwu, op_mullw, op_divw, op_divwu,
}
use monte_lauro_ml_cd32_ppc.Ppc.Logic.{
  op_cmpi, op_cmpli, op_cmp, op_cmpl, op_ori, op_oris, op_andi, op_rlwinm, op_rlwimi, op_or, op_nor,
  op_and, op_andc, op_cntlzw,
}
use monte_lauro_ml_cd32_ppc.Ppc.Storage.{
  op_lwz, op_lwzu, op_stw, op_stwu, op_lbz, op_lbzu, op_stb, op_stbu, op_lhz, op_lhzu, op_lha,
  op_lhau, op_sth, op_sthu, op_lwzx, op_stwx,
}
use monte_lauro_ml_cd32_ppc.Ppc.Special.{
  op_mtmsr, op_mfmsr, op_mtcrf, op_mfcr, op_mtspr, op_mfspr, op_mfsr, op_mtsr,
}
use monte_lauro_ml_cd32_ppc.Ppc.Branch.{op_xlform, op_bc, op_b, take_extint}

module _ ⦃bus : BusInterface⦄ where
  -- an X-form that is not known does nothing
  unfoldable pub op_nop : ℕ → Ppc ℕ
  op_nop insn = pure 1

  -- the arms of `op_xform`
  unfoldable pub x_arms : List (ℕ × (ℕ → Ppc ℕ))
  x_arms =
      (0b0000001000, op_subfc)
      ∷ (0b0110111100, op_or)
      ∷ (0b0111010001, op_nor)
      ∷ (0b0000011100, op_and)
      ∷ (0b0001000100, op_and)
      ∷ (0b0001000111, op_andc)
      ∷ (0b0001011000, op_neg)
      ∷ (0b0001100000, op_cntlzw)
      ∷ (0b0001110100, op_add)
      ∷ (0b0100001010, op_addc)
      ∷ (0b0010000000, op_subf)
      ∷ (0b0010011011, op_subfe)
      ∷ (0b0010101010, op_addme)
      ∷ (0b0010101100, op_mulhw)
      ∷ (0b0010101110, op_mulhwu)
      ∷ (0b0011101011, op_mullw)
      ∷ (0b0111011011, op_divw)
      ∷ (0b0111110111, op_divwu)
      ∷ (0b0000010010, op_mfsr)
      ∷ (0b0000110110, op_mtsr)
      ∷ (0b0000000000, op_cmp)
      ∷ (0b0000100000, op_cmpl)
      ∷ (0b0010010111, op_mtmsr)
      ∷ (0b0100000110, op_mfmsr)
      ∷ (0b0010010000, op_mtcrf)
      ∷ (0b0000010011, op_mfcr)
      ∷ (0b0010011001, op_lwzx)
      ∷ (0b0010001001, op_stwx)
      ∷ (0b0111010011, op_mtspr)
      ∷ (0b0101010011, op_mfspr)
      ∷ []

  unfoldable pub op_xform : ℕ → Ppc ℕ
  op_xform insn = select (bits 1 10 insn) x_arms op_nop insn

  unfoldable pub op_ill : ℕ → Ppc ℕ
  op_ill insn = get_regs >>= λ r. raise (illegal_instruction (sub32 r.pc 4))

  -- the arms of `dispatch`
  unfoldable pub arms : List (ℕ × (ℕ → Ppc ℕ))
  arms =
      (0b001000, op_subfic)
      ∷ (0b001110, op_addi)
      ∷ (0b001100, op_addic)
      ∷ (0b001111, op_addis)
      ∷ (0b010011, op_xlform)
      ∷ (0b000111, op_mulli)
      ∷ (0b001011, op_cmpi)
      ∷ (0b001010, op_cmpli)
      ∷ (0b011000, op_ori)
      ∷ (0b011001, op_oris)
      ∷ (0b011100, op_andi)
      ∷ (0b010101, op_rlwinm)
      ∷ (0b010100, op_rlwimi)
      ∷ (0b100000, op_lwz)
      ∷ (0b100001, op_lwzu)
      ∷ (0b100010, op_lbz)
      ∷ (0b100011, op_lbzu)
      ∷ (0b100110, op_stb)
      ∷ (0b100111, op_stbu)
      ∷ (0b101000, op_lhz)
      ∷ (0b101001, op_lhzu)
      ∷ (0b101010, op_lha)
      ∷ (0b101011, op_lhau)
      ∷ (0b101100, op_sth)
      ∷ (0b101101, op_sthu)
      ∷ (0b011111, op_xform)
      ∷ (0b100100, op_stw)
      ∷ (0b100101, op_stwu)
      ∷ (0b010000, op_bc)
      ∷ (0b010010, op_b)
      ∷ []

  unfoldable pub dispatch : ℕ → Ppc ℕ
  dispatch insn = select (bits 26 6 insn) arms op_ill insn

  -- the instruction at the program counter
  unfoldable pub fetch : Ppc ℕ
  fetch = do
    r ← get_regs
    phys_pc ← translated false r.pc
    insn ← reading bus.read_word r.pc phys_pc
    set_regs (λ r1. record r1 { pc = add32 r.pc 4 })
    dispatch insn

  -- the external interrupt is enabled and pending
  abbrev pub interrupted : Core → Bool
  interrupted s = test_bit 15 s.0.regs.msr && bus.ppc_irq_pending s.1

  unfoldable pub step : Ppc ℕ
  step s =
      if s.0.halt
      then value (s, ok 0)
      else if interrupted s
      then (take_extint >>= λ n. pure 1) s
      else fetch s
