-- ===== src/Ppc/Branch.antt =====
-- src/cpu/ppc603e.rs: branches, the instructions of opcode 19, and external interrupts. The program
-- counter is already past the instruction.
use monte_lauro_ml_cd32_ppc.Base.{
  ℕ, ◌+◌, ◌-◌, ◌*◌, ◌/◌, ◌%◌, ◌^◌, Bool, ◌&&◌, ◌||◌, not, if◌then◌else◌, ltb, ◌==◌, bits, add32,
  sub32, sext16, test_bit, clear_bit,
}
use monte_lauro_ml_cd32_ppc.Bus.Interface.{BusInterface}
use monte_lauro_ml_cd32_ppc.Ppc.{PpcRegs, rd_of, ra_of, put_field, Ppc, on_regs}

-- the fields BO and BI
abbrev pub bo_of : ℕ → ℕ
bo_of insn = rd_of insn

abbrev pub bi_of : ℕ → ℕ
bi_of insn = ra_of insn

-- `if lk == 1 { self.regs.lr = self.regs.pc }`
abbrev pub linked : ℕ → PpcRegs → PpcRegs
linked insn r = if test_bit 0 insn then record r { lr = r.pc } else r

-- `(bo & 0x14) == 0x14`
abbrev always : ℕ → Bool
always bo = test_bit 4 bo && test_bit 2 bo

-- the bit of the condition register is what BO asks for
abbrev pub condition : ℕ → ℕ → ℕ → Bool
condition bo bi cr = bits (31 - bi) 1 cr == bits 3 1 bo

-- the displacement BD, and the target of a conditional branch
abbrev pub bd_of : ℕ → ℕ
bd_of insn = sext16 (bits 2 14 insn * 4)

abbrev pub branch_target : ℕ → ℕ → ℕ → ℕ
branch_target insn disp pc = if test_bit 1 insn then disp else add32 (sub32 pc 4) disp

-- A branch that leaves the counter alone.
abbrev branch_if : ℕ → ℕ → PpcRegs → PpcRegs
branch_if insn target r =
    if always (bo_of insn) || condition (bo_of insn) (bi_of insn) r.cr
    then record r { pc = target }
    else r

-- What a conditional branch does after the link: the counter, then the condition.
abbrev pub branch_counting : ℕ → ℕ → PpcRegs → PpcRegs
branch_counting insn target r =
    let bo = bo_of insn in
    let counted = record r { ctr = sub32 r.ctr 1 } in
    if always bo
    then record r { pc = target }
    else if test_bit 2 bo
    then (if condition bo (bi_of insn) r.cr then record r { pc = target } else r)
    else if (counted.ctr == 0 && test_bit 1 bo) || (not (counted.ctr == 0) && not (test_bit 1 bo))
    then counted
    else if condition bo (bi_of insn) r.cr
    then record counted { pc = target }
    else counted

-- the displacement LI, of 26 bits with its sign
abbrev pub li_of : ℕ → ℕ
li_of insn = let d = bits 2 24 insn * 4 in if ltb d (2 ^ 25) then d else d + (2 ^ 32 - 2 ^ 26)

abbrev rfi : PpcRegs → PpcRegs
rfi r = record r { msr = r.srr1; pc = r.srr0 }

-- MCRF, with its fields from the low bits of `rd` and `ra`
unfoldable mcrf : ℕ → PpcRegs → PpcRegs
mcrf insn r =
    let from = 28 - ra_of insn % 8 * 4 in
    record r { cr = put_field (rd_of insn % 8) (bits from 4 r.cr) r.cr }

module _ ⦃bus : BusInterface⦄ where
  -- opcode 19
  unfoldable pub op_xlform : ℕ → Ppc ℕ
  unfolding mcrf
  op_xlform insn = on_regs (λ r.
      let xop = bits 1 10 insn in
      if xop == 50
      then rfi r
      else if xop == 16
      then branch_if insn r.lr (linked insn r)
      else if xop == 528
      then branch_if insn (r.ctr / 4 * 4) (linked insn r)
      else if xop == 0
      then mcrf insn r
      else r)

  -- opcode 16
  unfoldable pub op_bc : ℕ → Ppc ℕ
  op_bc insn =
      on_regs (λ r. branch_counting insn (branch_target insn (bd_of insn) r.pc) (linked insn r))

  -- opcode 18
  unfoldable pub op_b : ℕ → Ppc ℕ
  op_b insn = on_regs (λ r. record (linked insn r) { pc = branch_target insn (li_of insn) r.pc })

  -- a second version of opcode 16, which `dispatch` does not call
  unfoldable pub op_bform : ℕ → Ppc ℕ
  op_bform insn = on_regs (λ r.
      let bd = sext16 insn / 4 * 4 in
      let target = if test_bit 1 insn then bd else add32 r.pc (sub32 bd 4) in
      branch_counting insn target (linked insn r))

  unfoldable pub take_extint : Ppc ℕ
  take_extint =
      on_regs
        (λ r. record r { srr0 = r.pc; srr1 = r.msr; msr = clear_bit 15 r.msr; pc = 0x0000_0500 })
