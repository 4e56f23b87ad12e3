-- ===== src/ColdFire/Ends/Dispatch.antt =====
-- `dispatch` and `step` come to an end.
use monte_lauro_ml_cd32_ppc.Base.{
  ℕ, test_bit, bits, ◌/◌, ◌^◌, Bool, true, false, Option, none, some, ◌++◌, if◌then◌else◌, ◌==◌,
  ◌≢◌,
}
use monte_lauro_ml_cd32_ppc.Base.Run.{Run, out_of_fuel}
use monte_lauro_ml_cd32_ppc.Base.Exec.{Exit, Ends, Ends-if}
use monte_lauro_ml_cd32_ppc.Base.Arms.{select, AllEnd, AllEnd-append, Ends-select}
use monte_lauro_ml_cd32_ppc.Bus.Interface.{BusInterface, WritesEnd}
use monte_lauro_ml_cd32_ppc.ColdFire.{CfError, Core, op_ill}
use monte_lauro_ml_cd32_ppc.ColdFire.Moves.{op_lea, op_moveq}
use monte_lauro_ml_cd32_ppc.ColdFire.Flow.{op_bcc, op_bsr}
use monte_lauro_ml_cd32_ppc.ColdFire.Dispatch.{
  arms_0, arms_4, arms_4_rest, arms_8, arms_c, op_clr, op_flow, dispatch_4, dispatch_5, dispatch_e,
  dispatch, fetch, step, accepted, serve_or_fetch,
}
use monte_lauro_ml_cd32_ppc.ColdFire.Ends.{reading_rules, Ends-op_ill}
use monte_lauro_ml_cd32_ppc.ColdFire.Ends.Moves.{
  Ends-clr_instr, Ends-op_clr_byte, Ends-op_clr_long, Ends-op_clr_word, Ends-op_extw, Ends-op_lea,
  Ends-op_link_unlk, Ends-op_move_byte, Ends-op_move_from_sr, Ends-op_move_long,
  Ends-op_move_to_ccr, Ends-op_move_to_sr, Ends-op_move_usp, Ends-op_move_word, Ends-op_movem,
  Ends-op_moveq, Ends-op_swap,
}
use monte_lauro_ml_cd32_ppc.ColdFire.Ends.Flow.{
  Ends-op_bcc, Ends-op_bsr, Ends-op_jsr, Ends-op_jump, Ends-op_rte, Ends-op_rts, Ends-op_stop,
  Ends-take_interrupt,
}
use monte_lauro_ml_cd32_ppc.ColdFire.Ends.Arith.{
  Ends-addq_instr, Ends-op_add, Ends-op_add_byte, Ends-op_add_long, Ends-op_add_word,
  Ends-op_addq_byte, Ends-op_addq_long, Ends-op_addq_word, Ends-op_addx_long, Ends-op_chk,
  Ends-op_cmp, Ends-op_cmp_mem, Ends-op_div, Ends-op_mul_signed, Ends-op_mul_unsigned, Ends-op_nbcd,
  Ends-op_neg_long, Ends-op_neg_word, Ends-op_negx, Ends-op_sub, Ends-op_sub_byte, Ends-op_sub_long,
  Ends-op_sub_word, Ends-op_subq_byte, Ends-op_subq_long, Ends-op_subq_word, Ends-op_subx_long,
  Ends-subq_instr,
}
use monte_lauro_ml_cd32_ppc.ColdFire.Ends.Logic.{
  Ends-op_and_byte, Ends-op_and_long, Ends-op_and_word, Ends-op_asr, Ends-op_bchg_static,
  Ends-op_bclr_dynamic, Ends-op_bclr_static, Ends-op_bset_static, Ends-op_btst_static,
  Ends-op_eor_byte, Ends-op_eor_long, Ends-op_eor_word, Ends-op_lsr, Ends-op_not_byte,
  Ends-op_not_long, Ends-op_not_word, Ends-op_or_byte, Ends-op_or_long, Ends-op_or_word,
  Ends-op_ror, Ends-op_roxr, Ends-op_scc, Ends-op_tas, Ends-op_tst_long, Ends-op_tst_word,
}

module _ ⦃bus : BusInterface⦄ where
  if-ends :
      (b : Bool) (x y : Run (Core × Exit CfError ℕ))
      → x ≢ out_of_fuel
      → y ≢ out_of_fuel
      → (if b then x else y) ≢ out_of_fuel
  if-ends true x y h k = h
  if-ends false x y h k = k

  module _ (writes : WritesEnd bus) where
    ruleset instruction_rules = (
      reading_rules, Ends-clr_instr, Ends-op_clr_byte, Ends-op_clr_long, Ends-op_clr_word,
      Ends-op_extw, Ends-op_lea, Ends-op_link_unlk, Ends-op_move_byte, Ends-op_move_from_sr,
      Ends-op_move_long, Ends-op_move_to_ccr, Ends-op_move_to_sr, Ends-op_move_usp,
      Ends-op_move_word, Ends-op_movem, Ends-op_moveq, Ends-op_swap, Ends-op_bcc, Ends-op_bsr,
      Ends-op_jsr, Ends-op_jump, Ends-op_rte, Ends-op_rts, Ends-op_stop, Ends-take_interrupt,
      Ends-addq_instr, Ends-op_add, Ends-op_add_byte, Ends-op_add_long, Ends-op_add_word,
      Ends-op_addq_byte, Ends-op_addq_long, Ends-op_addq_word, Ends-op_addx_long, Ends-op_chk,
      Ends-op_cmp, Ends-op_cmp_mem, Ends-op_div, Ends-op_mul_signed, Ends-op_mul_unsigned,
      Ends-op_nbcd, Ends-op_neg_long, Ends-op_neg_word, Ends-op_negx, Ends-op_sub, Ends-op_sub_byte,
      Ends-op_sub_long, Ends-op_sub_word, Ends-op_subq_byte, Ends-op_subq_long, Ends-op_subq_word,
      Ends-op_subx_long, Ends-subq_instr, Ends-op_and_byte, Ends-op_and_long, Ends-op_and_word,
      Ends-op_asr, Ends-op_bchg_static, Ends-op_bclr_dynamic, Ends-op_bclr_static,
      Ends-op_bset_static, Ends-op_btst_static, Ends-op_eor_byte, Ends-op_eor_long,
      Ends-op_eor_word, Ends-op_lsr, Ends-op_not_byte, Ends-op_not_long, Ends-op_not_word,
      Ends-op_or_byte, Ends-op_or_long, Ends-op_or_word, Ends-op_ror, Ends-op_roxr, Ends-op_scc,
      Ends-op_tas, Ends-op_tst_long, Ends-op_tst_word,
    )

    Ends-op_clr : (op : ℕ) → Ends (op_clr op)
    unfolding op_clr
    Ends-op_clr op = search instruction_rules

    Ends-op_flow : (op : ℕ) → Ends (op_flow op)
    unfolding op_flow
    Ends-op_flow op = search instruction_rules depth 30

    arms_0-AllEnd : AllEnd arms_0
    unfolding arms_0
    arms_0-AllEnd = search instruction_rules depth 30

    arms_4-AllEnd : AllEnd arms_4
    unfolding arms_4
    arms_4-AllEnd = search (instruction_rules, Ends-op_clr, Ends-op_flow) depth 30

    arms_4_rest-AllEnd : AllEnd arms_4_rest
    unfolding arms_4_rest
    arms_4_rest-AllEnd = search instruction_rules depth 30

    arms_8-AllEnd : AllEnd arms_8
    unfolding arms_8
    arms_8-AllEnd = search instruction_rules depth 30

    arms_c-AllEnd : AllEnd arms_c
    unfolding arms_c
    arms_c-AllEnd = search instruction_rules depth 30

    Ends-dispatch_4 : (op : ℕ) → Ends (dispatch_4 op)
    unfolding dispatch_4
    Ends-dispatch_4 op =
        Ends-if (bits 6 3 op == 7) (op_lea op)
          (select (bits 8 8 op) (arms_4 ++ arms_4_rest) op_ill op) (Ends-op_lea writes op)
          (Ends-select (bits 8 8 op) (arms_4 ++ arms_4_rest) op_ill op
            (AllEnd-append arms_4 arms_4_rest arms_4-AllEnd arms_4_rest-AllEnd) (Ends-op_ill op))

    Ends-dispatch_5 : (op : ℕ) → Ends (dispatch_5 op)
    unfolding dispatch_5
    Ends-dispatch_5 op = search instruction_rules depth 30

    Ends-dispatch_e : (op : ℕ) → Ends (dispatch_e op)
    unfolding dispatch_e
    Ends-dispatch_e op = search instruction_rules depth 30

    Ends-bits_arms : (op : ℕ) → Ends (select (op / 2 ^ 8) arms_0 op_ill op)
    Ends-bits_arms op = Ends-select (op / 2 ^ 8) arms_0 op_ill op arms_0-AllEnd (Ends-op_ill op)

    Ends-or_arms : (op : ℕ) → Ends (select (op / 2 ^ 8) arms_8 op_ill op)
    Ends-or_arms op = Ends-select (op / 2 ^ 8) arms_8 op_ill op arms_8-AllEnd (Ends-op_ill op)

    Ends-and_arms : (op : ℕ) → Ends (select (op / 2 ^ 8) arms_c op_ill op)
    Ends-and_arms op = Ends-select (op / 2 ^ 8) arms_c op_ill op arms_c-AllEnd (Ends-op_ill op)

    pub Ends-dispatch : (op : ℕ) → Ends (dispatch op)
    unfolding dispatch
    Ends-dispatch op = Ends-if (op / 2 ^ 12 == 0) _ _ (Ends-bits_arms op) (
        Ends-if (op / 2 ^ 12 == 1) _ _ (Ends-op_move_byte writes op) (
          Ends-if (op / 2 ^ 12 == 2) _ _ (Ends-op_move_long writes op) (
            Ends-if (op / 2 ^ 12 == 3) _ _ (Ends-op_move_word writes op) (
              Ends-if (op / 2 ^ 12 == 4) _ _ (Ends-dispatch_4 op) (
                Ends-if (op / 2 ^ 12 == 5) _ _ (Ends-dispatch_5 op) (
                  Ends-if (op / 2 ^ 12 == 6) _ _
                    (Ends-if (bits 8 4 op == 1) op_bsr (op_bcc op) (search instruction_rules)
                      (search instruction_rules))
                    (Ends-if (op / 2 ^ 12 == 7) _ _
                      (Ends-if (test_bit 8 op) (op_ill op) (op_moveq op) (search instruction_rules)
                        (search instruction_rules))
                      (Ends-if (op / 2 ^ 12 == 8) _ _ (Ends-or_arms op) (
                        Ends-if (op / 2 ^ 12 == 9) _ _ (Ends-op_sub writes op) (
                          Ends-if (op / 2 ^ 12 == 10) _ _ (Ends-op_cmp_mem writes op) (
                            Ends-if (op / 2 ^ 12 == 11) _ _ (Ends-op_cmp writes op) (
                              Ends-if (op / 2 ^ 12 == 12) _ _ (Ends-and_arms op) (
                                Ends-if (op / 2 ^ 12 == 13) _ _ (Ends-op_add writes op) (
                                  Ends-if (op / 2 ^ 12 == 14) _ _ (Ends-dispatch_e op)
                                    (Ends-op_ill op)))))))))))))))

    Ends-serve_or_fetch : (o : Option (ℕ × ℕ)) → Ends (serve_or_fetch o)
    unfolding fetch
    Ends-serve_or_fetch none = search (instruction_rules, Ends-dispatch) depth 30
    Ends-serve_or_fetch (some (level, vector)) = search instruction_rules

    pub Ends-step : Ends step
    unfolding step
    Ends-step = record {
      at = λ s.
          if-ends s.0.halt _ _ (λ h. cc)
            ((Ends-serve_or_fetch (accepted s.0.regs (bus.cf_irq_pending s.1))).at s);
    }
