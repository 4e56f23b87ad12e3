-- ===== src/ColdFire/Dispatch.antt =====
-- src/cpu/coldfire.rs, `dispatch` and `step`. A `match` on the high byte of the instruction is a table
-- of its arms; what is in none of them is illegal.
use monte_lauro_ml_cd32_ppc.Base.{
  ℕ, ◌/◌, ◌%◌, ◌^◌, ◌&&◌, Option, none, some, List, [], ◌∷◌, ◌++◌, if◌then◌else◌, ltb, leb, ◌==◌,
  bits, add32, test_bit,
}
use monte_lauro_ml_cd32_ppc.Base.Run.{value}
use monte_lauro_ml_cd32_ppc.Base.Exec.{ok, pure, ◌>>=◌, ◌>>◌}
use monte_lauro_ml_cd32_ppc.Base.Arms.{select}
use monte_lauro_ml_cd32_ppc.Bus.Interface.{BusInterface}
use monte_lauro_ml_cd32_ppc.ColdFire.{CfRegs, Cf, get_regs, set_pc, load_half, op_ill}
use monte_lauro_ml_cd32_ppc.ColdFire.Moves.{
  clr_instr, op_clr_byte, op_clr_long, op_clr_word, op_extw, op_lea, op_link_unlk, op_move_byte,
  op_move_from_sr, op_move_long, op_move_to_ccr, op_move_to_sr, op_move_usp, op_move_word, op_movem,
  op_moveq, op_swap,
}
use monte_lauro_ml_cd32_ppc.ColdFire.Flow.{
  op_bcc, op_bsr, op_jsr, op_jump, op_rte, op_rts, op_stop, take_interrupt,
}
use monte_lauro_ml_cd32_ppc.ColdFire.Arith.{
  addq_instr, op_add, op_add_byte, op_add_long, op_add_word, op_addq_byte, op_addq_long,
  op_addq_word, op_addx_long, op_chk, op_cmp, op_cmp_mem, op_nbcd, op_neg_long, op_neg_word,
  op_negx, op_sub, op_sub_byte, op_sub_long, op_sub_word, op_subq_byte, op_subq_long, op_subq_word,
  op_subx_long, subq_instr,
}
use monte_lauro_ml_cd32_ppc.ColdFire.Division.{op_div, op_mul_signed, op_mul_unsigned}
use monte_lauro_ml_cd32_ppc.ColdFire.Logic.{
  op_and_byte, op_and_long, op_and_word, op_asr, op_bchg_static, op_bclr_dynamic, op_bclr_static,
  op_bset_static, op_btst_static, op_eor_byte, op_eor_long, op_eor_word, op_lsr, op_not_byte,
  op_not_long, op_not_word, op_or_byte, op_or_long, op_or_word, op_ror, op_roxr, op_scc, op_tas,
  op_tst_long, op_tst_word,
}

-- `match (op >> 7) & 3`
abbrev quick_size : ℕ → ℕ
quick_size op = if bits 7 2 op == 0 then 1 else if bits 7 2 op == 1 then 2 else 4

module _ ⦃bus : BusInterface⦄ where
  -- 0x0xxx: bit instructions
  unfoldable pub arms_0 : List (ℕ × (ℕ → Cf ℕ))
  arms_0 =
      (0x01, op_btst_static)
      ∷ (0x02, op_bchg_static)
      ∷ (0x03, op_bclr_static)
      ∷ (0x04, op_bset_static)
      ∷ (0x06, op_bclr_dynamic)
      ∷ []

  unfoldable pub op_clr : ℕ → Cf ℕ
  op_clr op = clr_instr op (quick_size op)

  -- 0x4Exx
  unfoldable pub op_flow : ℕ → Cf ℕ
  op_flow op =
      let lo = op % 256 in
      if lo == 0x71
      then pure 1
      else if lo == 0x72
      then op_stop op
      else if lo == 0x73
      then op_rte
      else if lo == 0x75
      then op_rts
      else if leb 0x80 lo && leb lo 0xBF
      then op_jsr
      else op_jump op

  -- 0x4xxx
  unfoldable pub arms_4 : List (ℕ × (ℕ → Cf ℕ))
  arms_4 =
      (0x40, op_lea)
      ∷ (0x41, op_chk)
      ∷ (0x42, op_clr)
      ∷ (0x43, op_move_from_sr)
      ∷ (0x44, op_move_to_ccr)
      ∷ (0x46, op_move_to_sr)
      ∷ (0x48, op_swap)
      ∷ (0x49, op_extw)
      ∷ (0x4A, op_tst_word)
      ∷ (0x4B, op_tst_long)
      ∷ (0x4C, op_div)
      ∷ (0x4E, op_flow)
      ∷ (0x4F, op_link_unlk)
      ∷ []

  -- the arms of the same `match` with keys from 0x50 on
  unfoldable pub arms_4_rest : List (ℕ × (ℕ → Cf ℕ))
  arms_4_rest =
      (0x50, op_stop)
      ∷ (0x54, op_addq_word)
      ∷ (0x55, op_subq_word)
      ∷ (0x56, op_addq_long)
      ∷ (0x57, op_subq_long)
      ∷ (0x58, op_addq_byte)
      ∷ (0x59, op_subq_byte)
      ∷ (0x5A, op_addq_byte)
      ∷ (0x5C, op_subq_byte)
      ∷ (0x60, op_negx)
      ∷ (0x62, op_clr_byte)
      ∷ (0x64, op_clr_word)
      ∷ (0x66, op_clr_long)
      ∷ (0x68, op_neg_word)
      ∷ (0x6A, op_neg_long)
      ∷ (0x6C, op_not_byte)
      ∷ (0x6E, op_not_word)
      ∷ (0x70, op_not_long)
      ∷ (0x74, op_nbcd)
      ∷ (0x7A, op_tas)
      ∷ (0x80, op_move_usp)
      ∷ (0x88, op_movem)
      ∷ (0xC0, op_and_byte)
      ∷ (0xC2, op_and_long)
      ∷ (0xC4, op_and_word)
      ∷ (0xC6, op_mul_unsigned)
      ∷ (0xC8, op_eor_byte)
      ∷ (0xCA, op_eor_long)
      ∷ (0xCC, op_eor_word)
      ∷ (0xCE, op_mul_signed)
      ∷ (0xD0, op_add_byte)
      ∷ (0xD2, op_add_long)
      ∷ (0xD4, op_add_word)
      ∷ (0xD6, op_addx_long)
      ∷ (0xD8, op_sub_byte)
      ∷ (0xDA, op_sub_long)
      ∷ (0xDC, op_sub_word)
      ∷ (0xDE, op_subx_long)
      ∷ []

  unfoldable pub dispatch_4 : ℕ → Cf ℕ
  unfolding arms_4 arms_4_rest op_clr op_flow select
  dispatch_4 op =
      if bits 6 3 op == 7 then op_lea op else select (bits 8 8 op) (arms_4 ++ arms_4_rest) op_ill op

  -- 0x5xxx: Scc, ADDQ, SUBQ
  unfoldable pub dispatch_5 : ℕ → Cf ℕ
  dispatch_5 op =
      if bits 6 3 op == 7
      then op_scc op
      else if test_bit 8 op
      then subq_instr op (quick_size op)
      else addq_instr op (quick_size op)

  -- 0x8xxx: OR, DIV, SUB
  unfoldable pub arms_8 : List (ℕ × (ℕ → Cf ℕ))
  arms_8 =
      (0x80, op_or_byte)
      ∷ (0x82, op_or_long)
      ∷ (0x84, op_or_word)
      ∷ (0x86, op_div)
      ∷ (0x88, op_sub_byte)
      ∷ (0x8A, op_sub_long)
      ∷ (0x8C, op_sub_word)
      ∷ (0x8E, op_subx_long)
      ∷ []

  -- 0xCxxx: AND, MUL, EOR
  unfoldable pub arms_c : List (ℕ × (ℕ → Cf ℕ))
  arms_c =
      (0xC0, op_and_byte)
      ∷ (0xC2, op_and_long)
      ∷ (0xC4, op_and_word)
      ∷ (0xC6, op_mul_unsigned)
      ∷ (0xC8, op_eor_byte)
      ∷ (0xCA, op_eor_long)
      ∷ (0xCC, op_eor_word)
      ∷ (0xCE, op_mul_signed)
      ∷ []

  -- 0xExxx: shifts, by the next four bits
  unfoldable pub dispatch_e : ℕ → Cf ℕ
  dispatch_e op =
      let hi = op / 2 ^ 8 in
      if leb 0xE0 hi && leb hi 0xE7
      then op_asr op
      else if leb 0xE8 hi && leb hi 0xEF
      then op_lsr op
      else if leb 0xF0 hi && leb hi 0xF7
      then op_roxr op
      else if leb 0xF8 hi && leb hi 0xFF
      then op_ror op
      else op_ill op

  unfoldable pub dispatch : ℕ → Cf ℕ
  unfolding dispatch_4 dispatch_5 dispatch_e arms_0 arms_8 arms_c select
  dispatch op =
      let group = op / 2 ^ 12 in
      let hi = op / 2 ^ 8 in
      if group == 0x0
      then select hi arms_0 op_ill op
      else if group == 0x1
      then op_move_byte op
      else if group == 0x2
      then op_move_long op
      else if group == 0x3
      then op_move_word op
      else if group == 0x4
      then dispatch_4 op
      else if group == 0x5
      then dispatch_5 op
      else if group == 0x6
      then if bits 8 4 op == 1 then op_bsr else op_bcc op
      else if group == 0x7
      then if test_bit 8 op then op_ill op else op_moveq op
      else if group == 0x8
      then select hi arms_8 op_ill op
      else if group == 0x9
      then op_sub op
      else if group == 0xA
      then op_cmp_mem op
      else if group == 0xB
      then op_cmp op
      else if group == 0xC
      then select hi arms_c op_ill op
      else if group == 0xD
      then op_add op
      else if group == 0xE
      then dispatch_e op
      else op_ill op

  -- an instruction at the program counter
  unfoldable pub fetch : Cf ℕ
  unfolding dispatch
  fetch = do r ← get_regs; op ← load_half r.pc; set_pc (add32 r.pc 2); dispatch op

  -- the interrupt that is taken before the next instruction: its level is above the mask
  abbrev pub accepted : CfRegs → Option (ℕ × ℕ) → Option (ℕ × ℕ)
  accepted r none = none
  accepted r (some (level, vector)) =
      if ltb (bits 8 3 r.sr) level then some (level, vector) else none

  abbrev pub serve_or_fetch : Option (ℕ × ℕ) → Cf ℕ
  serve_or_fetch none = fetch
  serve_or_fetch (some (level, vector)) = take_interrupt level vector

  unfoldable pub step : Cf ℕ
  step s =
      if s.0.halt
      then value (s, ok 0)
      else serve_or_fetch (accepted s.0.regs (bus.cf_irq_pending s.1)) s
