-- ===== src/Ppc/Special.antt =====
-- src/cpu/ppc603e.rs: the machine state, the condition register, the segment registers and the
-- special purpose registers.
use monte_lauro_ml_cd32_ppc.Base.{
  ℕ, zero, suc, ◌+◌, ◌-◌, ◌*◌, ◌^◌, Bool, ◌&&◌, if◌then◌else◌, leb, ◌==◌, update, bits,
}
use monte_lauro_ml_cd32_ppc.Bus.Interface.{BusInterface}
use monte_lauro_ml_cd32_ppc.Ppc.{PpcRegs, rd_of, ra_of, rb_of, set_gpr, put_field, Ppc, on_regs}

-- The loop of `mtcrf` over the fields from number `i` on, with `n` left.
unfoldable put_fields : ℕ → ℕ → ℕ → ℕ → ℕ → ℕ
put_fields zero i mask val cr = cr
put_fields (suc n) i mask val cr =
    put_fields n (i + 1) mask val
      (if bits (7 - i) 1 mask == 1 then put_field i (bits (28 - i * 4) 4 val) cr else cr)

-- the number of a special purpose register, whose halves the instruction exchanges
abbrev pub sprn_of : ℕ → ℕ
sprn_of insn = rb_of insn * 2 ^ 5 + ra_of insn

abbrev is_ibat : ℕ → Bool
is_ibat n = leb 528 n && leb n 535

abbrev is_dbat : ℕ → Bool
is_dbat n = leb 536 n && leb n 543

-- `match sprn` of `op_mtspr`; an unknown register is not written
unfoldable pub write_spr : ℕ → ℕ → PpcRegs → PpcRegs
write_spr n val r =
    if n == 8
    then record r { lr = val }
    else if n == 9
    then record r { ctr = val }
    else if n == 25
    then record r { sdr1 = val }
    else if n == 26
    then record r { srr0 = val }
    else if n == 27
    then record r { srr1 = val }
    else if is_ibat n
    then record r { ibat = update r.ibat (n - 528) val }
    else if is_dbat n
    then record r { dbat = update r.dbat (n - 536) val }
    else r

-- `match sprn` of `op_mfspr`; an unknown register reads as 0
unfoldable pub read_spr : ℕ → PpcRegs → ℕ
read_spr n r =
    if n == 8
    then r.lr
    else if n == 9
    then r.ctr
    else if n == 25
    then r.sdr1
    else if n == 26
    then r.srr0
    else if n == 27
    then r.srr1
    else if is_ibat n
    then r.ibat (n - 528)
    else if is_dbat n
    then r.dbat (n - 536)
    else 0

module _ ⦃bus : BusInterface⦄ where
  unfoldable pub op_mtmsr : ℕ → Ppc ℕ
  op_mtmsr insn = on_regs (λ r. record r { msr = r.gpr (rd_of insn) })

  unfoldable pub op_mfmsr : ℕ → Ppc ℕ
  op_mfmsr insn = on_regs (λ r. set_gpr (rd_of insn) r.msr r)

  unfoldable pub op_mtcrf : ℕ → Ppc ℕ
  unfolding put_fields
  op_mtcrf insn = on_regs (λ r.
      let mask = bits 12 8 insn in
      let val = r.gpr (rd_of insn) in
      record r { cr = if mask == 0xFF then val else put_fields 8 0 mask val r.cr })

  unfoldable pub op_mfcr : ℕ → Ppc ℕ
  op_mfcr insn = on_regs (λ r. set_gpr (rd_of insn) r.cr r)

  unfoldable pub op_mtspr : ℕ → Ppc ℕ
  unfolding write_spr
  op_mtspr insn = on_regs (λ r. write_spr (sprn_of insn) (r.gpr (rd_of insn)) r)

  unfoldable pub op_mfspr : ℕ → Ppc ℕ
  unfolding read_spr
  op_mfspr insn = on_regs (λ r. set_gpr (rd_of insn) (read_spr (sprn_of insn) r) r)

  unfoldable pub op_mfsr : ℕ → Ppc ℕ
  op_mfsr insn = on_regs (λ r. set_gpr (rd_of insn) (r.sr (bits 16 4 insn)) r)

  unfoldable pub op_mtsr : ℕ → Ppc ℕ
  op_mtsr insn = on_regs (λ r. record r { sr = update r.sr (bits 16 4 insn) (r.gpr (rd_of insn)) })
