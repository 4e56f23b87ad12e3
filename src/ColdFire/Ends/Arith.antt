-- ===== src/ColdFire/Ends/Arith.antt =====
-- The arithmetic of the core come to an end.
use monte_lauro_ml_cd32_ppc.Base.{ℕ, Bool}
use monte_lauro_ml_cd32_ppc.Base.Exec.{Ends}
use monte_lauro_ml_cd32_ppc.Bus.Interface.{BusInterface, WritesEnd}
use monte_lauro_ml_cd32_ppc.ColdFire.Arith.{
  addq_instr, subq_instr, op_addq_byte, op_addq_word, op_addq_long, op_subq_byte, op_subq_word,
  op_subq_long, alu_to_register, alu_to_operand, alu_arith, op_add, op_sub, op_add_byte,
  op_add_word, op_add_long, op_sub_byte, op_sub_word, op_sub_long, op_cmp, op_cmp_mem, op_addx_long,
  op_subx_long, op_nbcd, neg_instr, op_neg_word, op_neg_long, op_negx, op_chk,
}
use monte_lauro_ml_cd32_ppc.ColdFire.Division.{op_div, mul_instr, op_mul_unsigned, op_mul_signed}
use monte_lauro_ml_cd32_ppc.ColdFire.Ends.{operand_rules}

module _ ⦃bus : BusInterface⦄ (writes : WritesEnd bus) where
  pub Ends-addq_instr : (op : ℕ) (size : ℕ) → Ends (addq_instr op size)
  unfolding addq_instr
  Ends-addq_instr op size = search (operand_rules) depth 40 fits 5000

  pub Ends-subq_instr : (op : ℕ) (size : ℕ) → Ends (subq_instr op size)
  unfolding subq_instr
  Ends-subq_instr op size = search (operand_rules) depth 40 fits 5000

  pub Ends-op_addq_byte : (op : ℕ) → Ends (op_addq_byte op)
  unfolding op_addq_byte
  Ends-op_addq_byte op = search (operand_rules, Ends-addq_instr) depth 40 fits 5000

  pub Ends-op_addq_word : (op : ℕ) → Ends (op_addq_word op)
  unfolding op_addq_word
  Ends-op_addq_word op = search (operand_rules, Ends-addq_instr) depth 40 fits 5000

  pub Ends-op_addq_long : (op : ℕ) → Ends (op_addq_long op)
  unfolding op_addq_long
  Ends-op_addq_long op = search (operand_rules, Ends-addq_instr) depth 40 fits 5000

  pub Ends-op_subq_byte : (op : ℕ) → Ends (op_subq_byte op)
  unfolding op_subq_byte
  Ends-op_subq_byte op = search (operand_rules, Ends-subq_instr) depth 40 fits 5000

  pub Ends-op_subq_word : (op : ℕ) → Ends (op_subq_word op)
  unfolding op_subq_word
  Ends-op_subq_word op = search (operand_rules, Ends-subq_instr) depth 40 fits 5000

  pub Ends-op_subq_long : (op : ℕ) → Ends (op_subq_long op)
  unfolding op_subq_long
  Ends-op_subq_long op = search (operand_rules, Ends-subq_instr) depth 40 fits 5000

  Ends-alu_to_register : (op : ℕ) (size : ℕ) (is_sub : Bool) → Ends (alu_to_register op size is_sub)
  unfolding alu_to_register
  Ends-alu_to_register op size is_sub = search (operand_rules) depth 40 fits 5000

  Ends-alu_to_operand : (op : ℕ) (is_sub : Bool) → Ends (alu_to_operand op is_sub)
  unfolding alu_to_operand
  Ends-alu_to_operand op is_sub = search (operand_rules) depth 40 fits 5000

  Ends-alu_arith : (op : ℕ) (size : ℕ) (is_sub : Bool) → Ends (alu_arith op size is_sub)
  unfolding alu_arith
  Ends-alu_arith op size is_sub =
      search (operand_rules, Ends-alu_to_register, Ends-alu_to_operand) depth 40 fits 5000

  pub Ends-op_add : (op : ℕ) → Ends (op_add op)
  unfolding op_add
  Ends-op_add op = search (operand_rules, Ends-alu_arith) depth 40 fits 5000

  pub Ends-op_sub : (op : ℕ) → Ends (op_sub op)
  unfolding op_sub
  Ends-op_sub op = search (operand_rules, Ends-alu_arith) depth 40 fits 5000

  pub Ends-op_add_byte : (op : ℕ) → Ends (op_add_byte op)
  unfolding op_add_byte
  Ends-op_add_byte op = search (operand_rules, Ends-alu_arith) depth 40 fits 5000

  pub Ends-op_add_word : (op : ℕ) → Ends (op_add_word op)
  unfolding op_add_word
  Ends-op_add_word op = search (operand_rules, Ends-alu_arith) depth 40 fits 5000

  pub Ends-op_add_long : (op : ℕ) → Ends (op_add_long op)
  unfolding op_add_long
  Ends-op_add_long op = search (operand_rules, Ends-alu_arith) depth 40 fits 5000

  pub Ends-op_sub_byte : (op : ℕ) → Ends (op_sub_byte op)
  unfolding op_sub_byte
  Ends-op_sub_byte op = search (operand_rules, Ends-alu_arith) depth 40 fits 5000

  pub Ends-op_sub_word : (op : ℕ) → Ends (op_sub_word op)
  unfolding op_sub_word
  Ends-op_sub_word op = search (operand_rules, Ends-alu_arith) depth 40 fits 5000

  pub Ends-op_sub_long : (op : ℕ) → Ends (op_sub_long op)
  unfolding op_sub_long
  Ends-op_sub_long op = search (operand_rules, Ends-alu_arith) depth 40 fits 5000

  pub Ends-op_cmp : (op : ℕ) → Ends (op_cmp op)
  unfolding op_cmp
  Ends-op_cmp op = search (operand_rules) depth 40 fits 5000

  pub Ends-op_cmp_mem : (op : ℕ) → Ends (op_cmp_mem op)
  unfolding op_cmp_mem
  Ends-op_cmp_mem op = search (operand_rules) depth 40 fits 5000

  pub Ends-op_addx_long : (op : ℕ) → Ends (op_addx_long op)
  unfolding op_addx_long
  Ends-op_addx_long op = search (operand_rules) depth 40 fits 5000

  pub Ends-op_subx_long : (op : ℕ) → Ends (op_subx_long op)
  unfolding op_subx_long
  Ends-op_subx_long op = search (operand_rules) depth 40 fits 5000

  pub Ends-op_nbcd : (op : ℕ) → Ends (op_nbcd op)
  unfolding op_nbcd
  Ends-op_nbcd op = search (operand_rules) depth 40 fits 5000

  Ends-neg_instr : (op : ℕ) (size : ℕ) → Ends (neg_instr op size)
  unfolding neg_instr
  Ends-neg_instr op size = search (operand_rules) depth 40 fits 5000

  pub Ends-op_neg_word : (op : ℕ) → Ends (op_neg_word op)
  unfolding op_neg_word
  Ends-op_neg_word op = search (operand_rules, Ends-neg_instr) depth 40 fits 5000

  pub Ends-op_neg_long : (op : ℕ) → Ends (op_neg_long op)
  unfolding op_neg_long
  Ends-op_neg_long op = search (operand_rules, Ends-neg_instr) depth 40 fits 5000

  pub Ends-op_negx : (op : ℕ) → Ends (op_negx op)
  unfolding op_negx
  Ends-op_negx op = search (operand_rules) depth 40 fits 5000

  pub Ends-op_div : (op : ℕ) → Ends (op_div op)
  unfolding op_div
  Ends-op_div op = search (operand_rules) depth 40 fits 5000

  Ends-mul_instr : (op : ℕ) (sign : Bool) → Ends (mul_instr op sign)
  unfolding mul_instr
  Ends-mul_instr op sign = search (operand_rules) depth 40 fits 5000

  pub Ends-op_mul_unsigned : (op : ℕ) → Ends (op_mul_unsigned op)
  unfolding op_mul_unsigned
  Ends-op_mul_unsigned op = search (operand_rules, Ends-mul_instr) depth 40 fits 5000

  pub Ends-op_mul_signed : (op : ℕ) → Ends (op_mul_signed op)
  unfolding op_mul_signed
  Ends-op_mul_signed op = search (operand_rules, Ends-mul_instr) depth 40 fits 5000

  pub Ends-op_chk : (op : ℕ) → Ends (op_chk op)
  unfolding op_chk
  Ends-op_chk op = search (operand_rules) depth 40 fits 5000
