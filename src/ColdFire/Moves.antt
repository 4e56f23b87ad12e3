-- ===== src/ColdFire/Moves.antt =====
-- src/cpu/coldfire.rs: moves between registers and memory.
use monte_lauro_ml_cd32_ppc.Base.{
  ℕ, zero, suc, ◌+◌, ◌-◌, ◌*◌, ◌/◌, ◌^◌, Bool, false, Option, none, some, if◌then◌else◌, ltb, ◌==◌,
  u8, u16, u32, bits, add32, sub32, sext8, sext16, test_bit,
}
use monte_lauro_ml_cd32_ppc.Base.Exec.{Done, pure, raise, ◌>>=◌, ◌>>◌}
use monte_lauro_ml_cd32_ppc.Bus.Interface.{BusInterface}
use monte_lauro_ml_cd32_ppc.ColdFire.{
  illegal_instruction, CfAddressing, address_register_indirect, address_register_displacement,
  abs_short, abs_long, pc_displacement, CfRegs, put_low, update_flags, or_zero, set_sr, mode_of,
  reg_of, dn_of, Cf, get_regs, set_pc, set_a, set_d, load_word, store_half, store_word, peek_word,
}
use monte_lauro_ml_cd32_ppc.ColdFire.Operands.{decode_ea, ea_read, ea_write, ea_addr}

-- The address of LEA: not of `(An)+` or `-(An)`, though these have one.
unfoldable pub lea_addr : CfAddressing → Option ℕ
lea_addr (address_register_indirect addr) = some addr
lea_addr (address_register_displacement addr disp) = some addr
lea_addr (abs_short addr) = some addr
lea_addr (abs_long addr) = some addr
lea_addr (pc_displacement addr disp) = some addr
lea_addr _ = none

module _ ⦃bus : BusInterface⦄ where
  unfoldable pub move_instr : ℕ → ℕ → Cf ℕ
  move_instr op size = do
    src_ea ← decode_ea (mode_of op) (reg_of op) size
    val ← ea_read src_ea size
    dst_ea ← decode_ea (bits 9 3 op) (bits 6 3 op) size
    ea_write dst_ea val size
    update_flags val size false false
    pure 1

  unfoldable pub op_move_byte : ℕ → Cf ℕ
  unfolding move_instr
  op_move_byte op = move_instr op 1

  unfoldable pub op_move_word : ℕ → Cf ℕ
  unfolding move_instr
  op_move_word op = move_instr op 2

  unfoldable pub op_move_long : ℕ → Cf ℕ
  unfolding move_instr
  op_move_long op = move_instr op 4

  unfoldable pub op_moveq : ℕ → Cf ℕ
  op_moveq op = do
    let word = sext8 op
    set_d (dn_of op) word
    update_flags word 4 false false
    pure 1

  unfoldable pub or_illegal : ℕ → Option ℕ → Cf ℕ
  or_illegal op none = do r ← get_regs; raise (illegal_instruction op (sub32 r.pc 4))
  or_illegal op (some addr) = pure addr

  unfoldable pub op_lea : ℕ → Cf ℕ
  unfolding or_illegal
  op_lea op = do
    ea ← decode_ea (mode_of op) (reg_of op) 4
    addr ← or_illegal op (lea_addr ea)
    set_a (dn_of op) addr
    pure 1

  unfoldable pub op_move_from_sr : ℕ → Cf ℕ
  op_move_from_sr op = do
    ea ← decode_ea (mode_of op) (reg_of op) 2
    r ← get_regs
    ea_write ea r.sr 2
    pure 1

  -- Both branches of the source read a data register.
  unfoldable pub op_move_to_ccr : ℕ → Cf ℕ
  op_move_to_ccr op = do r ← get_regs; set_sr (r.sr / 256 * 256 + u8 (r.d (reg_of op))); pure 1

  unfoldable pub op_move_to_sr : ℕ → Cf ℕ
  op_move_to_sr op = do
    ea ← decode_ea (mode_of op) (reg_of op) 2
    val ← ea_read ea 2
    set_sr (u16 val)
    pure 1

  unfoldable pub op_swap : ℕ → Cf ℕ
  op_swap op = do
    r ← get_regs
    let v = r.d (dn_of op)
    let swapped = u32 (v * 2 ^ 16) + v / 2 ^ 16
    set_d (dn_of op) swapped
    update_flags swapped 4 false false
    pure 1

  unfoldable pub op_extw : ℕ → Cf ℕ
  op_extw op = do
    r ← get_regs
    let extended = sext8 (r.d (dn_of op))
    set_d (dn_of op) extended
    update_flags extended 4 false false
    pure 1

  unfoldable pub clr_instr : ℕ → ℕ → Cf ℕ
  clr_instr op size = do
    r ← get_regs
    if mode_of op == 0
        then set_d (reg_of op) (put_low size 0 (r.d (reg_of op)))
        else (do ea ← decode_ea (mode_of op) (reg_of op) size; ea_write ea 0 size)
    update_flags 0 size false false
    pure 1

  unfoldable pub op_clr_byte : ℕ → Cf ℕ
  unfolding clr_instr
  op_clr_byte op = clr_instr op 1

  unfoldable pub op_clr_word : ℕ → Cf ℕ
  unfolding clr_instr
  op_clr_word op = clr_instr op 2

  unfoldable pub op_clr_long : ℕ → Cf ℕ
  unfolding clr_instr
  op_clr_long op = clr_instr op 4

  unfoldable pub op_move_usp : ℕ → Cf ℕ
  op_move_usp op = do
    r ← get_regs
    if test_bit 3 op then set_a (dn_of op) (r.a 7) else set_a 7 (r.a (dn_of op))
    pure 1

  -- register `i` of MOVEM: the data registers, then the address registers
  abbrev get_reg : ℕ → CfRegs → ℕ
  get_reg i r = if ltb i 8 then r.d i else r.a (i - 8)

  abbrev set_reg : ℕ → ℕ → Cf Done
  set_reg i v = if ltb i 8 then set_d i v else set_a (i - 8) v

  -- The loop from memory, from register `i` on, with the rounds that are left; it gives the
  -- address behind what it read. A word of 2 bytes is the low half of a read of 4.
  unfoldable pub movem_load : ℕ → ℕ → ℕ → ℕ → ℕ → Cf ℕ
  movem_load zero mask size i addr = pure addr
  movem_load (suc rounds) mask size i addr = do
    next ←
        (if test_bit (15 - i) mask
          then (do
            val ← load_word addr
            set_reg i (if size == 4 then val else u16 val)
            pure (add32 addr size))
          else pure addr)
    movem_load rounds mask size (i + 1) next

  -- The loop to memory: upwards from register 0, or for `-(An)` downwards from register 15.
  unfoldable pub movem_store : ℕ → Bool → ℕ → ℕ → ℕ → ℕ → Cf Done
  movem_store zero down mask size k addr = pure tt
  movem_store (suc rounds) down mask size k addr = do
    let i = if down then 15 - k else k
    next ←
        (if test_bit (15 - i) mask
          then (do
            r ← get_regs
            let val = get_reg i r
            if size == 4 then store_word addr val else store_half addr (u16 val)
            pure (if down then sub32 addr size else add32 addr size))
          else pure addr)
    movem_store rounds down mask size (k + 1) next

  unfoldable pub op_movem : ℕ → Cf ℕ
  op_movem op = do
    let size = if test_bit 6 op then 4 else 2
    r ← get_regs
    mask ← peek_word r.pc
    set_pc (add32 r.pc 2)
    ea ← decode_ea (mode_of op) (reg_of op) size
    let base = or_zero (ea_addr ea)
    if test_bit 10 op
        then (do
          addr ← movem_load 16 mask size 0 base
          if mode_of op == 3 then set_a (reg_of op) addr else pure tt)
        else movem_store 16 (mode_of op == 4) mask size 0 base
    pure 1

  unfoldable pub op_link_unlk : ℕ → Cf ℕ
  op_link_unlk op = do
    let an = dn_of op
    r ← get_regs
    if test_bit 3 op
        then (do
          set_a 7 (r.a an)
          addr ← load_word (r.a an)
          set_a 7 (add32 (r.a an) 4)
          set_a an addr)
        else (do
          disp ← peek_word r.pc
          set_pc (add32 r.pc 2)
          let top = sub32 (r.a 7) 4
          set_a 7 top
          r1 ← get_regs
          store_word top (r1.a an)
          set_a an top
          r2 ← get_regs
          set_a 7 (add32 (r2.a 7) (sext16 disp)))
    pure 1
