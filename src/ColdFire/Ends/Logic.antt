-- ===== src/ColdFire/Ends/Logic.antt =====
-- The logic and shifts of the core come to an end.
use monte_lauro_ml_cd32_ppc.Base.{ℕ, Bool}
use monte_lauro_ml_cd32_ppc.Base.Exec.{Ends}
use monte_lauro_ml_cd32_ppc.Bus.Interface.{BusInterface, WritesEnd}
use monte_lauro_ml_cd32_ppc.ColdFire.Logic.{
  test_operand, op_btst_static, op_bchg_static, op_bclr_static, op_bset_static, op_bclr_dynamic,
  op_tst_word, op_tst_long, op_tas, not_instr, op_not_byte, op_not_word, op_not_long, op_scc,
  alu_binary, op_and_byte, op_and_word, op_and_long, op_or_byte, op_or_word, op_or_long,
  op_eor_byte, op_eor_word, op_eor_long, shift_instr, op_asr, op_lsr, op_roxr, op_ror,
}
use monte_lauro_ml_cd32_ppc.ColdFire.Ends.{operand_rules}

module _ ⦃bus : BusInterface⦄ (writes : WritesEnd bus) where
  Ends-test_operand : (op : ℕ) (bit : ℕ) → Ends (test_operand op bit)
  unfolding test_operand
  Ends-test_operand op bit = search (operand_rules) depth 40 fits 5000

  pub Ends-op_btst_static : (op : ℕ) → Ends (op_btst_static op)
  unfolding op_btst_static
  Ends-op_btst_static op = search (operand_rules, Ends-test_operand) depth 40 fits 5000

  pub Ends-op_bchg_static : (op : ℕ) → Ends (op_bchg_static op)
  unfolding op_bchg_static
  Ends-op_bchg_static op = search (operand_rules, Ends-test_operand) depth 40 fits 5000

  pub Ends-op_bclr_static : (op : ℕ) → Ends (op_bclr_static op)
  unfolding op_bclr_static
  Ends-op_bclr_static op = search (operand_rules, Ends-test_operand) depth 40 fits 5000

  pub Ends-op_bset_static : (op : ℕ) → Ends (op_bset_static op)
  unfolding op_bset_static
  Ends-op_bset_static op = search (operand_rules, Ends-test_operand) depth 40 fits 5000

  pub Ends-op_bclr_dynamic : (op : ℕ) → Ends (op_bclr_dynamic op)
  unfolding op_bclr_dynamic
  Ends-op_bclr_dynamic op = search (operand_rules, Ends-test_operand) depth 40 fits 5000

  pub Ends-op_tst_word : (op : ℕ) → Ends (op_tst_word op)
  unfolding op_tst_word
  Ends-op_tst_word op = search (operand_rules) depth 40 fits 5000

  pub Ends-op_tst_long : (op : ℕ) → Ends (op_tst_long op)
  unfolding op_tst_long
  Ends-op_tst_long op = search (operand_rules) depth 40 fits 5000

  pub Ends-op_tas : (op : ℕ) → Ends (op_tas op)
  unfolding op_tas
  Ends-op_tas op = search (operand_rules) depth 40 fits 5000

  Ends-not_instr : (op : ℕ) (size : ℕ) → Ends (not_instr op size)
  unfolding not_instr
  Ends-not_instr op size = search (operand_rules) depth 40 fits 5000

  pub Ends-op_not_byte : (op : ℕ) → Ends (op_not_byte op)
  unfolding op_not_byte
  Ends-op_not_byte op = search (operand_rules, Ends-not_instr) depth 40 fits 5000

  pub Ends-op_not_word : (op : ℕ) → Ends (op_not_word op)
  unfolding op_not_word
  Ends-op_not_word op = search (operand_rules, Ends-not_instr) depth 40 fits 5000

  pub Ends-op_not_long : (op : ℕ) → Ends (op_not_long op)
  unfolding op_not_long
  Ends-op_not_long op = search (operand_rules, Ends-not_instr) depth 40 fits 5000

  pub Ends-op_scc : (op : ℕ) → Ends (op_scc op)
  unfolding op_scc
  Ends-op_scc op = search (operand_rules) depth 40 fits 5000

  Ends-alu_binary :
      (op : ℕ) (size : ℕ) (is_and : Bool) (is_or : Bool) (is_eor : Bool)
      → Ends (alu_binary op size is_and is_or is_eor)
  unfolding alu_binary
  Ends-alu_binary op size is_and is_or is_eor = search (operand_rules) depth 40 fits 5000

  pub Ends-op_and_byte : (op : ℕ) → Ends (op_and_byte op)
  unfolding op_and_byte
  Ends-op_and_byte op = search (operand_rules, Ends-alu_binary) depth 40 fits 5000

  pub Ends-op_and_word : (op : ℕ) → Ends (op_and_word op)
  unfolding op_and_word
  Ends-op_and_word op = search (operand_rules, Ends-alu_binary) depth 40 fits 5000

  pub Ends-op_and_long : (op : ℕ) → Ends (op_and_long op)
  unfolding op_and_long
  Ends-op_and_long op = search (operand_rules, Ends-alu_binary) depth 40 fits 5000

  pub Ends-op_or_byte : (op : ℕ) → Ends (op_or_byte op)
  unfolding op_or_byte
  Ends-op_or_byte op = search (operand_rules, Ends-alu_binary) depth 40 fits 5000

  pub Ends-op_or_word : (op : ℕ) → Ends (op_or_word op)
  unfolding op_or_word
  Ends-op_or_word op = search (operand_rules, Ends-alu_binary) depth 40 fits 5000

  pub Ends-op_or_long : (op : ℕ) → Ends (op_or_long op)
  unfolding op_or_long
  Ends-op_or_long op = search (operand_rules, Ends-alu_binary) depth 40 fits 5000

  pub Ends-op_eor_byte : (op : ℕ) → Ends (op_eor_byte op)
  unfolding op_eor_byte
  Ends-op_eor_byte op = search (operand_rules, Ends-alu_binary) depth 40 fits 5000

  pub Ends-op_eor_word : (op : ℕ) → Ends (op_eor_word op)
  unfolding op_eor_word
  Ends-op_eor_word op = search (operand_rules, Ends-alu_binary) depth 40 fits 5000

  pub Ends-op_eor_long : (op : ℕ) → Ends (op_eor_long op)
  unfolding op_eor_long
  Ends-op_eor_long op = search (operand_rules, Ends-alu_binary) depth 40 fits 5000

  Ends-shift_instr : (op : ℕ) (is_asr : Bool) (is_lsr : Bool) → Ends (shift_instr op is_asr is_lsr)
  unfolding shift_instr
  Ends-shift_instr op is_asr is_lsr = search (operand_rules) depth 40 fits 5000

  pub Ends-op_asr : (op : ℕ) → Ends (op_asr op)
  unfolding op_asr
  Ends-op_asr op = search (operand_rules, Ends-shift_instr) depth 40 fits 5000

  pub Ends-op_lsr : (op : ℕ) → Ends (op_lsr op)
  unfolding op_lsr
  Ends-op_lsr op = search (operand_rules, Ends-shift_instr) depth 40 fits 5000

  pub Ends-op_roxr : (op : ℕ) → Ends (op_roxr op)
  unfolding op_roxr
  Ends-op_roxr op = search (operand_rules, Ends-shift_instr) depth 40 fits 5000

  pub Ends-op_ror : (op : ℕ) → Ends (op_ror op)
  unfolding op_ror
  Ends-op_ror op = search (operand_rules, Ends-shift_instr) depth 40 fits 5000
