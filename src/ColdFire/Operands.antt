-- ===== src/ColdFire/Operands.antt =====
-- src/cpu/coldfire.rs, `decode_ea`, `ea_read`, `ea_write`, `ea_addr`: the operands of an instruction.
use monte_lauro_ml_cd32_ppc.Base.{
  ℕ, ◌+◌, ◌*◌, ◌^◌, Option, none, some, if◌then◌else◌, ◌==◌, u32, u16, u8, bits, add32, sub32,
  sext16,
}
use monte_lauro_ml_cd32_ppc.Base.Exec.{Done, pure, raise, ◌>>=◌, ◌>>◌}
use monte_lauro_ml_cd32_ppc.Bus.Interface.{BusInterface}
use monte_lauro_ml_cd32_ppc.ColdFire.{
  illegal_instruction, CfAddressing, data_register_direct, address_register_direct,
  address_register_indirect, address_register_postinc, address_register_predec,
  address_register_displacement, abs_short, abs_long, pc_displacement, immediate, CfRegs, by_size,
  put_low, Cf, get_regs, set_pc, set_a, set_d, load_byte, load_half, load_word, store_byte,
  store_half, store_word,
}

-- the step of `(An)+` and `-(An)`
abbrev step_of : ℕ → ℕ
step_of size = by_size size 1 2 4

-- The address of an indexed operand: the base, the low half of the extension word, and the scaled
-- index register that its bits 10 to 15 name, with `i32` arithmetic that wraps.
unfoldable indexed : ℕ → ℕ → CfRegs → ℕ
indexed ext base r =
    let idx_reg = bits 12 3 ext in
    let idx_scale =
      if bits 11 1 ext == 1
      then if bits 10 1 ext == 1 then 8 else 4
      else if bits 10 1 ext == 1
      then 2
      else 1 in
    let idx = if bits 15 1 ext == 1 then r.d idx_reg else r.a idx_reg in
    u32 (base + sext16 ext + idx * idx_scale)

unfoldable pub ea_addr : CfAddressing → Option ℕ
ea_addr (address_register_indirect addr) = some addr
ea_addr (address_register_postinc addr) = some addr
ea_addr (address_register_predec addr) = some addr
ea_addr (abs_short addr) = some addr
ea_addr (abs_long addr) = some addr
ea_addr (address_register_displacement addr disp) = some addr
ea_addr (pc_displacement addr disp) = some addr
ea_addr _ = none

module _ ⦃bus : BusInterface⦄ where
  -- an absolute address or an immediate value: two halves after the instruction
  unfoldable pub two_halves : Cf ℕ
  two_halves = do
    r ← get_regs
    hi ← load_half r.pc
    lo ← load_half (add32 r.pc 2)
    set_pc (add32 r.pc 4)
    pure (u32 (hi * 2 ^ 16) + lo)

  -- the word at the program counter, which moves on by 2
  unfoldable pub extension : Cf ℕ
  extension = do r ← get_regs; ext ← load_word r.pc; set_pc (add32 r.pc 2); pure ext

  -- `match reg` of mode 7
  unfoldable pub decode_special : ℕ → Cf CfAddressing
  unfolding extension two_halves indexed
  decode_special reg = get_regs >>= λ r.
      if reg == 0
      then (do addr ← extension; pure (abs_short (sext16 addr)))
      else if reg == 1
      then (do addr ← two_halves; pure (abs_long addr))
      else if reg == 2
      then (do disp ← extension; pure (pc_displacement r.pc (u16 disp)))
      else if reg == 3
      then (do ext ← extension; pure (pc_displacement (indexed ext r.pc r) 0))
      else if reg == 4
      then (do val ← two_halves; pure (immediate val))
      else raise (illegal_instruction 0 r.pc)

  unfoldable pub decode_ea : ℕ → ℕ → ℕ → Cf CfAddressing
  unfolding decode_special
  decode_ea mode reg size = get_regs >>= λ r.
      if mode == 0
      then pure (data_register_direct (r.d reg) reg)
      else if mode == 1
      then pure (address_register_direct (r.a reg) reg)
      else if mode == 2
      then pure (address_register_indirect (r.a reg))
      else if mode == 3
      then (do
        set_a reg (add32 (r.a reg) (step_of size))
        pure (address_register_postinc (r.a reg)))
      else if mode == 4
      then (do
        set_a reg (sub32 (r.a reg) (step_of size))
        pure (address_register_predec (sub32 (r.a reg) (step_of size))))
      else if mode == 5
      then (do disp ← extension; pure (address_register_displacement (r.a reg) (u16 disp)))
      else if mode == 6
      then (do ext ← extension; pure (address_register_displacement (indexed ext (r.a reg) r) 0))
      else if mode == 7
      then decode_special reg
      else raise (illegal_instruction 0 r.pc)

  -- a read and a write of memory, by size
  unfoldable pub load : ℕ → ℕ → Cf ℕ
  unfolding load_byte load_half load_word
  load size addr = by_size size (load_byte addr) (load_half addr) (load_word addr)

  unfoldable pub store : ℕ → ℕ → ℕ → Cf Done
  unfolding store_byte store_half store_word
  store size addr val =
      by_size size (store_byte addr (u8 val)) (store_half addr (u16 val)) (store_word addr val)

  unfoldable pub ea_read : CfAddressing → ℕ → Cf ℕ
  unfolding load
  ea_read (data_register_direct val idx) size = pure (by_size size (u8 val) (u16 val) val)
  ea_read (address_register_direct val idx) size = pure val
  ea_read (address_register_indirect addr) size = load size addr
  ea_read (address_register_postinc addr) size = load size addr
  ea_read (address_register_predec addr) size = load size addr
  ea_read (abs_short addr) size = load size addr
  ea_read (abs_long addr) size = load size addr
  ea_read (address_register_displacement addr disp) size = load size addr
  ea_read (pc_displacement addr disp) size = load size addr
  ea_read (immediate val) size = pure val

  unfoldable pub ea_write : CfAddressing → ℕ → ℕ → Cf Done
  unfolding store
  ea_write (data_register_direct val idx) new size = do
    r ← get_regs
    set_d idx (by_size size (put_low 1 new (r.d idx)) (put_low 2 new (r.d idx)) new)
  ea_write (address_register_direct val idx) new size = set_a idx new
  ea_write (address_register_indirect addr) new size = store size addr new
  ea_write (address_register_postinc addr) new size = store size addr new
  ea_write (address_register_predec addr) new size = store size addr new
  ea_write (abs_short addr) new size = store size addr new
  ea_write (abs_long addr) new size = store size addr new
  ea_write (address_register_displacement addr disp) new size = store size addr new
  ea_write (pc_displacement addr disp) new size = store size addr new
  ea_write (immediate val) new size = pure tt
