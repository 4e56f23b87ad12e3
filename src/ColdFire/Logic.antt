-- ===== src/ColdFire/Logic.antt =====
-- src/cpu/coldfire.rs: single bits, logic, tests and shifts.
use monte_lauro_ml_cd32_ppc.Base.{
  ℕ, ◌+◌, ◌-◌, ◌*◌, ◌/◌, ◌%◌, ◌^◌, Bool, true, false, ◌||◌, if◌then◌else◌, leb, ◌==◌, u8, u16, u32,
  bits, test_bit, set_bit, clear_bit,
}
use Prim.Native.Nat.{bit_and, bit_or, bit_xor}
use monte_lauro_ml_cd32_ppc.Base.Exec.{pure, ◌>>=◌, ◌>>◌}
use monte_lauro_ml_cd32_ppc.Bus.Interface.{BusInterface}
use monte_lauro_ml_cd32_ppc.ColdFire.{
  CfAddressing, low, put_low, not32, get_cc_cond, update_flags, set_sr, mode_of, reg_of, dn_of, Cf,
  get_regs, set_d,
}
use monte_lauro_ml_cd32_ppc.ColdFire.Operands.{decode_ea, ea_read, ea_write}

-- The value and the carry of a shift by `count`, which is not 0. ASR shifts as LSR does up to 31, and
-- ROR by a multiple of 32 shifts by 0 and by -1, of which a release build takes the low five bits.
unfoldable pub shift : Bool → Bool → ℕ → ℕ → ℕ × Bool
shift is_asr is_lsr count val =
    let c = count % 32 in
    if is_asr
    then if leb 32 count
      then (val / 2 ^ 31, test_bit 31 val)
      else (val / 2 ^ count, test_bit (count - 1) val)
    else if is_lsr
    then if leb 32 count then (0, false) else (val / 2 ^ count, test_bit (count - 1) val)
    else if c == 0
    then (val, test_bit 31 val)
    else (u32 (val * 2 ^ (32 - c)) + val / 2 ^ c, test_bit (c - 1) val)

module _ ⦃bus : BusInterface⦄ where
  -- the operand of a bit instruction, a byte, with the Z flag set from the bit
  unfoldable pub test_operand : ℕ → ℕ → Cf (CfAddressing × ℕ)
  test_operand op bit = do
    ea ← decode_ea (mode_of op) (reg_of op) 1
    val ← ea_read ea 1
    r ← get_regs
    set_sr (if test_bit bit val then clear_bit 2 r.sr else set_bit 2 r.sr)
    pure (ea, val)

  unfoldable pub op_btst_static : ℕ → Cf ℕ
  unfolding test_operand
  op_btst_static op = do e ← test_operand op (dn_of op); pure 1

  unfoldable pub op_bchg_static : ℕ → Cf ℕ
  unfolding test_operand
  op_bchg_static op = do
    e ← test_operand op (dn_of op)
    ea_write e.0 (bit_xor e.1 (2 ^ dn_of op)) 1
    pure 1

  unfoldable pub op_bclr_static : ℕ → Cf ℕ
  unfolding test_operand
  op_bclr_static op = do
    e ← test_operand op (dn_of op)
    ea_write e.0 (clear_bit (dn_of op) e.1) 1
    pure 1

  unfoldable pub op_bset_static : ℕ → Cf ℕ
  unfolding test_operand
  op_bset_static op = do
    e ← test_operand op (dn_of op)
    ea_write e.0 (set_bit (dn_of op) e.1) 1
    pure 1

  unfoldable pub op_bclr_dynamic : ℕ → Cf ℕ
  unfolding test_operand
  op_bclr_dynamic op = do
    r ← get_regs
    let bit = r.d (dn_of op) % 32
    e ← test_operand op bit
    ea_write e.0 (clear_bit bit e.1) 1
    pure 1

  unfoldable pub op_tst_word : ℕ → Cf ℕ
  op_tst_word op = do r ← get_regs; update_flags (u16 (r.d (dn_of op))) 2 false false; pure 1

  unfoldable pub op_tst_long : ℕ → Cf ℕ
  op_tst_long op = do r ← get_regs; update_flags (r.d (dn_of op)) 4 false false; pure 1

  unfoldable pub op_tas : ℕ → Cf ℕ
  op_tas op = do
    r ← get_regs
    let old = r.d (dn_of op)
    update_flags (u8 old) 1 false false
    set_d (dn_of op) (set_bit 7 old)
    pure 1

  unfoldable pub not_instr : ℕ → ℕ → Cf ℕ
  not_instr op size = get_regs >>= λ r.
      let mode = mode_of op in
      let reg = reg_of op in
      if mode == 0
      then (do
        let res = low size (not32 (r.d reg))
        set_d reg res
        update_flags res size false false
        pure 1)
      else (do
        ea ← decode_ea mode reg size
        val ← ea_read ea size
        let res = low size (not32 val)
        ea_write ea res size
        update_flags res size false false
        pure 1)

  unfoldable pub op_not_byte : ℕ → Cf ℕ
  unfolding not_instr
  op_not_byte op = not_instr op 1

  unfoldable pub op_not_word : ℕ → Cf ℕ
  unfolding not_instr
  op_not_word op = not_instr op 2

  unfoldable pub op_not_long : ℕ → Cf ℕ
  unfolding not_instr
  op_not_long op = not_instr op 4

  unfoldable pub op_scc : ℕ → Cf ℕ
  op_scc op = do
    r ← get_regs
    let old = r.d (dn_of op)
    set_d (dn_of op) (put_low 1 (if get_cc_cond (bits 8 4 op) r.sr then 0xFF else 0) old)
    pure 1

  unfoldable pub alu_binary : ℕ → ℕ → Bool → Bool → Bool → Cf ℕ
  alu_binary op size is_and is_or is_eor =
      if is_eor
      then (do
        ea ← decode_ea (mode_of op) (reg_of op) size
        val ← ea_read ea size
        r ← get_regs
        let res = low size (bit_xor val (r.d (dn_of op)))
        ea_write ea res size
        update_flags res size false false
        pure 1)
      else if is_and || is_or
      then (do
        ea ← decode_ea (mode_of op) (reg_of op) size
        src ← ea_read ea size
        r ← get_regs
        let dst = r.d (dn_of op)
        let res = if is_and then bit_and dst src else bit_or dst src
        set_d (dn_of op) (put_low size res dst)
        update_flags (low size res) size false false
        pure 1)
      else pure 1

  unfoldable pub op_and_byte : ℕ → Cf ℕ
  unfolding alu_binary
  op_and_byte op = alu_binary op 1 true false false

  unfoldable pub op_and_word : ℕ → Cf ℕ
  unfolding alu_binary
  op_and_word op = alu_binary op 2 true false false

  unfoldable pub op_and_long : ℕ → Cf ℕ
  unfolding alu_binary
  op_and_long op = alu_binary op 4 true false false

  unfoldable pub op_or_byte : ℕ → Cf ℕ
  unfolding alu_binary
  op_or_byte op = alu_binary op 1 false true false

  unfoldable pub op_or_word : ℕ → Cf ℕ
  unfolding alu_binary
  op_or_word op = alu_binary op 2 false true false

  unfoldable pub op_or_long : ℕ → Cf ℕ
  unfolding alu_binary
  op_or_long op = alu_binary op 4 false true false

  unfoldable pub op_eor_byte : ℕ → Cf ℕ
  unfolding alu_binary
  op_eor_byte op = alu_binary op 1 false false true

  unfoldable pub op_eor_word : ℕ → Cf ℕ
  unfolding alu_binary
  op_eor_word op = alu_binary op 2 false false true

  unfoldable pub op_eor_long : ℕ → Cf ℕ
  unfolding alu_binary
  op_eor_long op = alu_binary op 4 false false true

  unfoldable pub shift_instr : ℕ → Bool → Bool → Cf ℕ
  unfolding shift
  shift_instr op is_asr is_lsr = get_regs >>= λ r.
      let count = if test_bit 5 op then r.d (dn_of op) % 64 else dn_of op in
      let (res, carry) = shift is_asr is_lsr count (r.d (reg_of op)) in
      if count == 0
      then pure 1
      else (do set_d (reg_of op) res; update_flags res 4 carry false; pure 1)

  unfoldable pub op_asr : ℕ → Cf ℕ
  unfolding shift_instr
  op_asr op = shift_instr op true false

  unfoldable pub op_lsr : ℕ → Cf ℕ
  unfolding shift_instr
  op_lsr op = shift_instr op false true

  unfoldable pub op_roxr : ℕ → Cf ℕ
  unfolding shift_instr
  op_roxr op = shift_instr op false false

  unfoldable pub op_ror : ℕ → Cf ℕ
  unfolding shift_instr
  op_ror op = shift_instr op false false
