-- ===== src/Ppc/Logic.antt =====
-- src/cpu/ppc603e.rs: comparisons, logic and rotation.
use monte_lauro_ml_cd32_ppc.Base.{
  ℕ, zero, suc, ◌+◌, ◌-◌, ◌*◌, ◌/◌, ◌%◌, ◌^◌, Bool, if◌then◌else◌, ltb, leb, ◌==◌, bits, u16,
  sext16, test_bit, set_bit,
}
use Prim.Native.Nat.{bit_and, bit_or}
use monte_lauro_ml_cd32_ppc.Base.Int.{signed, ltb_ℤ}
use monte_lauro_ml_cd32_ppc.Bus.Interface.{BusInterface}
use monte_lauro_ml_cd32_ppc.Ppc.{
  PpcRegs, rd_of, ra_of, rb_of, set_gpr, not32, set_cr0, put_field, Ppc, on_regs,
}

-- LT, GT or EQ
abbrev pub compared : Bool → Bool → ℕ
compared lt gt = if lt then 0b1000 else if gt then 0b0100 else 0b0010

abbrev pub compared_signed : ℕ → ℕ → ℕ
compared_signed a b =
    compared (ltb_ℤ (signed 32 a) (signed 32 b)) (ltb_ℤ (signed 32 b) (signed 32 a))

abbrev compared_unsigned : ℕ → ℕ → ℕ
compared_unsigned a b = compared (ltb a b) (ltb b a)

-- the field that an instruction names: `(rd >> 2) & 7`
abbrev pub crf_of : ℕ → ℕ
crf_of insn = bits 2 3 (rd_of insn)

abbrev set_field : ℕ → ℕ → PpcRegs → PpcRegs
set_field insn v r = record r { cr = put_field (crf_of insn) v r.cr }

-- an instruction that puts a value of two registers into `ra`
abbrev to_ra : (ℕ → ℕ → ℕ) → ℕ → PpcRegs → PpcRegs
to_ra f insn r = set_gpr (ra_of insn) (f (r.gpr (rd_of insn)) (r.gpr (rb_of insn))) r

-- `if insn & 1 != 0`: CR0 is set from `ra`
abbrev pub recorded : ℕ → PpcRegs → PpcRegs
recorded insn r = if test_bit 0 insn then set_cr0 (r.gpr (ra_of insn)) r else r

-- `for i in i..i + n { mask |= 1 << (31 - i) }`
unfoldable set_range : ℕ → ℕ → ℕ → ℕ
set_range zero i mask = mask
set_range (suc n) i mask = set_range n (i + 1) (set_bit (31 - i) mask)

unfoldable pub make_mask : ℕ → ℕ → ℕ
unfolding set_range
make_mask mb me =
    if leb mb me
    then set_range (me + 1 - mb) mb 0
    else set_range (32 - mb) mb (set_range (me + 1) 0 0)

unfoldable pub rotate_left : ℕ → ℕ → ℕ
rotate_left sh x = x * 2 ^ sh % 2 ^ 32 + x / 2 ^ (32 - sh)

-- `u32::leading_zeros`, for the `n` low bits
unfoldable leading_zeros : ℕ → ℕ → ℕ
leading_zeros zero x = 0
leading_zeros (suc n) x = if x / 2 ^ n == 0 then suc (leading_zeros n x) else 0

abbrev mask_of : ℕ → ℕ
mask_of insn = make_mask (bits 6 5 insn) (bits 1 5 insn)

module _ ⦃bus : BusInterface⦄ where
  unfoldable pub op_cmpi : ℕ → Ppc ℕ
  op_cmpi insn =
      on_regs (λ r. set_field insn (compared_signed (r.gpr (ra_of insn)) (sext16 insn)) r)

  unfoldable pub op_cmpli : ℕ → Ppc ℕ
  op_cmpli insn =
      on_regs (λ r. set_field insn (compared_unsigned (r.gpr (ra_of insn)) (u16 insn)) r)

  unfoldable pub op_cmp : ℕ → Ppc ℕ
  op_cmp insn =
      on_regs (λ r. set_field insn (compared_signed (r.gpr (ra_of insn)) (r.gpr (rb_of insn))) r)

  unfoldable pub op_cmpl : ℕ → Ppc ℕ
  op_cmpl insn =
      on_regs (λ r. set_field insn (compared_unsigned (r.gpr (ra_of insn)) (r.gpr (rb_of insn))) r)

  unfoldable pub op_ori : ℕ → Ppc ℕ
  op_ori insn = on_regs (λ r. set_gpr (ra_of insn) (bit_or (r.gpr (rd_of insn)) (u16 insn)) r)

  unfoldable pub op_oris : ℕ → Ppc ℕ
  op_oris insn =
      on_regs (λ r. set_gpr (ra_of insn) (bit_or (r.gpr (rd_of insn)) (u16 insn * 2 ^ 16)) r)

  unfoldable pub op_andi : ℕ → Ppc ℕ
  op_andi insn = on_regs (λ r.
      let val = bit_and (r.gpr (rd_of insn)) (u16 insn) in set_cr0 val (set_gpr (ra_of insn) val r))

  unfoldable pub op_rlwinm : ℕ → Ppc ℕ
  unfolding make_mask rotate_left
  op_rlwinm insn = on_regs (λ r. recorded insn (
      set_gpr (ra_of insn)
        (bit_and (rotate_left (bits 11 5 insn) (r.gpr (rd_of insn))) (mask_of insn)) r))

  unfoldable pub op_rlwimi : ℕ → Ppc ℕ
  unfolding make_mask rotate_left
  op_rlwimi insn = on_regs (λ r.
      let rotated = rotate_left (bits 11 5 insn) (r.gpr (rd_of insn)) in
      set_gpr (ra_of insn)
        (bit_or (bit_and (r.gpr (ra_of insn)) (not32 (mask_of insn)))
          (bit_and rotated (mask_of insn)))
        r)

  unfoldable pub op_or : ℕ → Ppc ℕ
  op_or insn = on_regs (λ r. recorded insn (to_ra bit_or insn r))

  unfoldable pub op_nor : ℕ → Ppc ℕ
  op_nor insn = on_regs (λ r. recorded insn (to_ra (λ s b. not32 (bit_or s b)) insn r))

  unfoldable pub op_and : ℕ → Ppc ℕ
  op_and insn = on_regs (λ r. recorded insn (to_ra bit_and insn r))

  unfoldable pub op_andc : ℕ → Ppc ℕ
  op_andc insn = on_regs (to_ra (λ s b. bit_and s (not32 b)) insn)

  unfoldable pub op_cntlzw : ℕ → Ppc ℕ
  unfolding leading_zeros
  op_cntlzw insn = on_regs (λ r. set_gpr (ra_of insn) (leading_zeros 32 (r.gpr (rd_of insn))) r)
