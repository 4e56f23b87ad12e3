-- ===== src/ColdFire/Flow.antt =====
-- src/cpu/coldfire.rs: branches, subroutines, interrupts.
use monte_lauro_ml_cd32_ppc.Base.{
  ℕ, ◌+◌, ◌*◌, ◌/◌, ◌%◌, ◌^◌, true, not, ◌&&◌, if◌then◌else◌, ◌==◌, u8, u16, u32, bits, add32,
  sub32, sext8, sext16,
}
use Prim.Native.Nat.{bit_or}
use monte_lauro_ml_cd32_ppc.Base.Exec.{Done, pure, ◌>>=◌, ◌>>◌}
use monte_lauro_ml_cd32_ppc.Bus.Interface.{BusInterface}
use monte_lauro_ml_cd32_ppc.ColdFire.{
  get_cc_cond, set_sr, set_halt, op_ill, mode_of, reg_of, Cf, get_regs, set_regs, set_pc, set_a,
  load_half, load_word, store_half, store_word, peek_half, peek_word,
}

module _ ⦃bus : BusInterface⦄ where
  unfoldable pub op_bcc : ℕ → Cf ℕ
  op_bcc op = do
    r ← get_regs
    opword ← peek_half (sub32 r.pc 2)
    word ← peek_half r.pc
    let disp8 = sext8 opword
    let after = add32 r.pc 2
    if get_cc_cond (bits 8 4 opword) r.sr
        then set_pc (if disp8 == 0 then add32 after (sext16 word) else add32 r.pc disp8)
        else if disp8 == 0
        then set_pc after
        else pure tt
    pure 1

  unfoldable pub op_jump : ℕ → Cf ℕ
  op_jump op = get_regs >>= λ r.
      let mode = mode_of op in
      let reg = reg_of op in
      if mode == 2
      then (do set_pc (r.a reg); pure 1)
      else if mode == 5
      then (do disp ← peek_word r.pc; set_pc (add32 (r.a reg) (sext16 disp)); pure 1)
      else if mode == 7 && reg == 1
      then (do
        hi ← peek_word r.pc
        lo ← peek_word (add32 r.pc 2)
        set_pc (bit_or (u32 (hi * 2 ^ 16)) lo)
        pure 1)
      else if mode == 7 && reg == 0
      then (do addr ← peek_word r.pc; set_pc (sext16 addr); pure 1)
      else op_ill op

  -- `a[7]` goes down by 4, and a word goes there
  unfoldable pub push_word : ℕ → Cf Done
  unfolding get_regs set_regs store_word
  push_word val = do r ← get_regs; set_a 7 (sub32 (r.a 7) 4); store_word (sub32 (r.a 7) 4) val

  -- the word at `a[7]`, which goes up by 4
  unfoldable pub pop_word : Cf ℕ
  unfolding get_regs set_regs load_word
  pop_word = do r ← get_regs; val ← load_word (r.a 7); set_a 7 (add32 (r.a 7) 4); pure val

  unfoldable pub op_jsr : Cf ℕ
  op_jsr = get_regs >>= λ before. peek_half (sub32 before.pc 2) >>= λ op.
      push_word before.pc
      >> (get_regs >>= λ r.
          let mode = mode_of op in
          let reg = reg_of op in
          if mode == 2
          then (do set_pc (r.a reg); pure 1)
          else if mode == 5
          then (do disp ← peek_word r.pc; set_pc (add32 (r.a reg) (sext16 disp)); pure 1)
          else if mode == 7 && reg == 1
          then (do
            hi ← peek_word r.pc
            lo ← peek_word (add32 r.pc 2)
            set_pc (bit_or (u32 (hi * 2 ^ 16)) lo)
            pure 1)
          else op_ill op)

  unfoldable pub op_bsr : Cf ℕ
  op_bsr = do
    r ← get_regs
    op ← peek_half (sub32 r.pc 2)
    ext ← peek_word r.pc
    let is_short = not (u8 op == 0)
    let back = if is_short then r.pc else add32 r.pc 2
    set_pc back
    push_word back
    set_pc (add32 back (if is_short then sext8 op else sext16 ext))
    pure 1

  unfoldable pub op_rts : Cf ℕ
  op_rts = do addr ← pop_word; set_pc addr; pure 1

  unfoldable pub op_rte : Cf ℕ
  op_rte = do
    pc ← pop_word
    r ← get_regs
    sr ← load_half (r.a 7)
    set_a 7 (add32 (r.a 7) 2)
    set_pc pc
    set_sr sr
    pure 1

  unfoldable pub op_stop : ℕ → Cf ℕ
  op_stop op = do r ← get_regs; set_pc (add32 r.pc 2); set_halt true; pure 1

  unfoldable pub take_interrupt : ℕ → ℕ → Cf ℕ
  take_interrupt level vector = do
    r ← get_regs
    let top = sub32 (r.a 7) 2
    set_a 7 top
    store_half top r.sr
    push_word r.pc
    set_sr (bit_or (r.sr / 2 ^ 11 * 2 ^ 11 + r.sr % 2 ^ 8) (u16 (level * 2 ^ 8)))
    new_pc ← load_word (vector * 4)
    set_pc new_pc
    pure 1
