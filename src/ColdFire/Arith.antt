-- ===== src/ColdFire/Arith.antt =====
-- src/cpu/coldfire.rs: addition, subtraction, comparison, multiplication and division.
use monte_lauro_ml_cd32_ppc.Base.{
  ℕ, ◌+◌, ◌^◌, Bool, true, false, not, ◌&&◌, ◌||◌, if◌then◌else◌, ltb, leb, ◌==◌, bits, add32,
  sub32, set_bit, clear_bit,
}
use monte_lauro_ml_cd32_ppc.Base.Int.{signed, ltb_ℤ}
use monte_lauro_ml_cd32_ppc.Base.Exec.{pure, raise, ◌>>=◌, ◌>>◌}
use monte_lauro_ml_cd32_ppc.Bus.Interface.{BusInterface}
use monte_lauro_ml_cd32_ppc.ColdFire.{
  illegal_instruction, low, put_low, not32, is_negative, update_flags, set_sr, mode_of, reg_of,
  dn_of, Cf, get_regs, set_a, set_d, load_word,
}
use monte_lauro_ml_cd32_ppc.ColdFire.Operands.{decode_ea, ea_read, ea_write}

-- `ADDQ` and `SUBQ`: an immediate of 0 stands for 8
abbrev quick : ℕ → ℕ
quick op = if dn_of op == 0 then 8 else dn_of op

-- the overflow test of CMP
unfoldable pub cmp_overflow : ℕ → ℕ → ℕ → Bool
cmp_overflow dst src res =
    (is_negative dst && (not (is_negative src) && not (is_negative res)))
    || (not (is_negative dst) && (is_negative src && is_negative res))

module _ ⦃bus : BusInterface⦄ where
  unfoldable pub addq_instr : ℕ → ℕ → Cf ℕ
  addq_instr op size = get_regs >>= λ r.
      let mode = mode_of op in
      let reg = reg_of op in
      if mode == 1
      then (do set_a reg (add32 (r.a reg) (quick op)); pure 1)
      else if mode == 0
      then (do
        let val = low size (r.d reg)
        let res = low size (add32 val (quick op))
        set_d reg (put_low size res (r.d reg))
        update_flags res size (ltb res val) false
        pure 1)
      else (do
        ea ← decode_ea mode reg size
        val ← ea_read ea size
        let res = add32 val (quick op)
        ea_write ea (low size res) size
        update_flags res size (ltb res val) false
        pure 1)

  unfoldable pub subq_instr : ℕ → ℕ → Cf ℕ
  subq_instr op size = get_regs >>= λ r.
      let mode = mode_of op in
      let reg = reg_of op in
      if mode == 1
      then (do set_a reg (sub32 (r.a reg) (quick op)); pure 1)
      else if mode == 0
      then (do
        let val = low size (r.d reg)
        let res = low size (sub32 val (quick op))
        set_d reg (put_low size res (r.d reg))
        update_flags res size (ltb val (quick op)) false
        pure 1)
      else (do
        ea ← decode_ea mode reg size
        val ← ea_read ea size
        let res = sub32 val (quick op)
        ea_write ea (low size res) size
        update_flags res size (ltb val (quick op)) false
        pure 1)

  unfoldable pub op_addq_byte : ℕ → Cf ℕ
  unfolding addq_instr
  op_addq_byte op = addq_instr op 1

  unfoldable pub op_addq_word : ℕ → Cf ℕ
  unfolding addq_instr
  op_addq_word op = addq_instr op 2

  unfoldable pub op_addq_long : ℕ → Cf ℕ
  unfolding addq_instr
  op_addq_long op = addq_instr op 4

  unfoldable pub op_subq_byte : ℕ → Cf ℕ
  unfolding subq_instr
  op_subq_byte op = subq_instr op 1

  unfoldable pub op_subq_word : ℕ → Cf ℕ
  unfolding subq_instr
  op_subq_word op = subq_instr op 2

  unfoldable pub op_subq_long : ℕ → Cf ℕ
  unfolding subq_instr
  op_subq_long op = subq_instr op 4

  -- `alu_arith`, where its opmode is 0 or 2: to the data register
  unfoldable pub alu_to_register : ℕ → ℕ → Bool → Cf ℕ
  alu_to_register op size is_sub = do
    ea ← decode_ea (mode_of op) (reg_of op) size
    src ← ea_read ea size
    r ← get_regs
    let dst = r.d (dn_of op)
    let res = if is_sub then sub32 dst src else add32 dst src
    let masked_res = low size res
    set_d (dn_of op) (put_low size res dst)
    update_flags masked_res size (if is_sub then ltb (low size dst) (low size src) else ltb res dst)
        false
    pure 1

  -- where it is 1 or 3: ADDA and SUBA, or to the operand
  unfoldable pub alu_to_operand : ℕ → Bool → Cf ℕ
  alu_to_operand op is_sub =
      let mode = mode_of op in
      let dst_size = if bits 6 2 op == 1 then 1 else if bits 6 2 op == 3 then 2 else 4 in
      if mode == 1 || (mode == 7 && leb (reg_of op) 1)
      then (do
        ea ← decode_ea mode (reg_of op) 4
        src ← ea_read ea 4
        r ← get_regs
        let old = r.a (dn_of op)
        set_a (dn_of op) (if is_sub then sub32 old src else add32 old src)
        pure 1)
      else (do
        ea ← decode_ea mode (reg_of op) dst_size
        val ← ea_read ea dst_size
        r ← get_regs
        let src = r.d (dn_of op)
        let res = low dst_size (if is_sub then sub32 val src else add32 val src)
        ea_write ea res dst_size
        let borrow = ltb (low dst_size val) (low dst_size src)
        update_flags res dst_size (if is_sub then borrow else ltb res (low dst_size val)) false
        pure 1)

  unfoldable pub alu_arith : ℕ → ℕ → Bool → Cf ℕ
  unfolding alu_to_register alu_to_operand
  alu_arith op size is_sub =
      if bits 6 1 op == 0 then alu_to_register op size is_sub else alu_to_operand op is_sub

  -- the size that bits 6 and 7 give
  abbrev size_of : ℕ → ℕ
  size_of op = if bits 6 2 op == 0 then 1 else if bits 6 2 op == 1 then 2 else 4

  unfoldable pub op_add : ℕ → Cf ℕ
  unfolding alu_arith
  op_add op = alu_arith op (size_of op) false

  unfoldable pub op_sub : ℕ → Cf ℕ
  unfolding alu_arith
  op_sub op = alu_arith op (size_of op) true

  unfoldable pub op_add_byte : ℕ → Cf ℕ
  unfolding alu_arith
  op_add_byte op = alu_arith op 1 false

  unfoldable pub op_add_word : ℕ → Cf ℕ
  unfolding alu_arith
  op_add_word op = alu_arith op 2 false

  unfoldable pub op_add_long : ℕ → Cf ℕ
  unfolding alu_arith
  op_add_long op = alu_arith op 4 false

  unfoldable pub op_sub_byte : ℕ → Cf ℕ
  unfolding alu_arith
  op_sub_byte op = alu_arith op 1 true

  unfoldable pub op_sub_word : ℕ → Cf ℕ
  unfolding alu_arith
  op_sub_word op = alu_arith op 2 true

  unfoldable pub op_sub_long : ℕ → Cf ℕ
  unfolding alu_arith
  op_sub_long op = alu_arith op 4 true

  unfoldable pub op_cmp : ℕ → Cf ℕ
  unfolding cmp_overflow
  op_cmp op = do
    ea ← decode_ea (mode_of op) (reg_of op) 4
    src ← ea_read ea 4
    r ← get_regs
    let dst = if mode_of op == 1 then r.a (dn_of op) else r.d (dn_of op)
    let res = sub32 dst src
    update_flags res 4 (ltb dst src) (cmp_overflow dst src res)
    pure 1

  unfoldable pub op_cmp_mem : ℕ → Cf ℕ
  op_cmp_mem op = do
    let ay = dn_of op
    let ax = reg_of op
    r ← get_regs
    val_y ← load_word (r.a ay)
    val_x ← load_word (r.a ax)
    set_a ay (add32 (r.a ay) 4)
    r1 ← get_regs
    set_a ax (add32 (r1.a ax) 4)
    update_flags (sub32 val_x val_y) 4 (ltb val_x val_y) false
    pure 1

  -- ADDX and SUBX do nothing.
  unfoldable pub op_addx_long : ℕ → Cf ℕ
  op_addx_long op = pure 1

  unfoldable pub op_subx_long : ℕ → Cf ℕ
  op_subx_long op = pure 1

  unfoldable pub op_nbcd : ℕ → Cf ℕ
  op_nbcd op = pure 1

  unfoldable pub neg_instr : ℕ → ℕ → Cf ℕ
  neg_instr op size = get_regs >>= λ r.
      let mode = mode_of op in
      let reg = reg_of op in
      if mode == 0
      then (do
        let val = r.d reg
        let res = add32 (not32 val) 1
        set_d reg (low size res)
        update_flags (low size res) size (leb (2 ^ 32) (val + res)) false
        pure 1)
      else (do
        ea ← decode_ea mode reg size
        val ← ea_read ea size
        let res = add32 (not32 val) 1
        ea_write ea (low size res) size
        update_flags (low size res) size (leb (2 ^ 32) (val + res)) false
        pure 1)

  unfoldable pub op_neg_word : ℕ → Cf ℕ
  unfolding neg_instr
  op_neg_word op = neg_instr op 2

  unfoldable pub op_neg_long : ℕ → Cf ℕ
  unfolding neg_instr
  op_neg_long op = neg_instr op 4

  unfoldable pub op_negx : ℕ → Cf ℕ
  op_negx op = do
    r ← get_regs
    let x = bits 4 1 r.sr
    let val = r.d (dn_of op)
    let res = add32 (not32 val) x
    let borrow = not (val == 0) || not (x == 0)
    set_d (dn_of op) res
    update_flags res 4 borrow false
    r1 ← get_regs
    set_sr (if borrow then set_bit 4 r1.sr else clear_bit 4 r1.sr)
    pure 1

  unfoldable pub op_chk : ℕ → Cf ℕ
  op_chk op = decode_ea (mode_of op) (reg_of op) 4 >>= λ ea. ea_read ea 4 >>= λ bound.
      get_regs >>= λ r.
      let val = r.d (dn_of op) in
      if is_negative val || ltb_ℤ (signed 32 bound) (signed 32 val)
      then raise (illegal_instruction op (sub32 r.pc 2))
      else pure 1
