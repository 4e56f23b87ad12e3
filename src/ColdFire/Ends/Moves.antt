-- ===== src/ColdFire/Ends/Moves.antt =====
-- The moves of the core come to an end.
use monte_lauro_ml_cd32_ppc.Base.{ℕ, zero, suc, Bool, Option, none, some}
use monte_lauro_ml_cd32_ppc.Base.Exec.{Ends}
use monte_lauro_ml_cd32_ppc.Bus.Interface.{BusInterface, WritesEnd}
use monte_lauro_ml_cd32_ppc.ColdFire.Moves.{
  or_illegal, move_instr, op_move_byte, op_move_word, op_move_long, op_moveq, op_lea,
  op_move_from_sr, op_move_to_ccr, op_move_to_sr, op_swap, op_extw, clr_instr, op_clr_byte,
  op_clr_word, op_clr_long, op_move_usp, movem_load, movem_store, op_movem, op_link_unlk,
}
use monte_lauro_ml_cd32_ppc.ColdFire.Ends.{reading_rules, operand_rules}

module _ ⦃bus : BusInterface⦄ (writes : WritesEnd bus) where
  Ends-move_instr : (op : ℕ) (size : ℕ) → Ends (move_instr op size)
  unfolding move_instr
  Ends-move_instr op size = search (operand_rules) depth 40 fits 5000

  pub Ends-op_move_byte : (op : ℕ) → Ends (op_move_byte op)
  unfolding op_move_byte
  Ends-op_move_byte op = search (operand_rules, Ends-move_instr) depth 40 fits 5000

  pub Ends-op_move_word : (op : ℕ) → Ends (op_move_word op)
  unfolding op_move_word
  Ends-op_move_word op = search (operand_rules, Ends-move_instr) depth 40 fits 5000

  pub Ends-op_move_long : (op : ℕ) → Ends (op_move_long op)
  unfolding op_move_long
  Ends-op_move_long op = search (operand_rules, Ends-move_instr) depth 40 fits 5000

  pub Ends-op_moveq : (op : ℕ) → Ends (op_moveq op)
  unfolding op_moveq
  Ends-op_moveq op = search (operand_rules) depth 40 fits 5000

  Ends-or_illegal : (op : ℕ) (o : Option ℕ) → Ends (or_illegal op o)
  unfolding or_illegal
  Ends-or_illegal op none = search reading_rules
  Ends-or_illegal op (some addr) = search reading_rules

  pub Ends-op_lea : (op : ℕ) → Ends (op_lea op)
  unfolding op_lea
  Ends-op_lea op = search (operand_rules, Ends-or_illegal) depth 40 fits 5000

  pub Ends-op_move_from_sr : (op : ℕ) → Ends (op_move_from_sr op)
  unfolding op_move_from_sr
  Ends-op_move_from_sr op = search (operand_rules) depth 40 fits 5000

  pub Ends-op_move_to_ccr : (op : ℕ) → Ends (op_move_to_ccr op)
  unfolding op_move_to_ccr
  Ends-op_move_to_ccr op = search (operand_rules) depth 40 fits 5000

  pub Ends-op_move_to_sr : (op : ℕ) → Ends (op_move_to_sr op)
  unfolding op_move_to_sr
  Ends-op_move_to_sr op = search (operand_rules) depth 40 fits 5000

  pub Ends-op_swap : (op : ℕ) → Ends (op_swap op)
  unfolding op_swap
  Ends-op_swap op = search (operand_rules) depth 40 fits 5000

  pub Ends-op_extw : (op : ℕ) → Ends (op_extw op)
  unfolding op_extw
  Ends-op_extw op = search (operand_rules) depth 40 fits 5000

  pub Ends-clr_instr : (op : ℕ) (size : ℕ) → Ends (clr_instr op size)
  unfolding clr_instr
  Ends-clr_instr op size = search (operand_rules) depth 40 fits 5000

  pub Ends-op_clr_byte : (op : ℕ) → Ends (op_clr_byte op)
  unfolding op_clr_byte
  Ends-op_clr_byte op = search (operand_rules, Ends-clr_instr) depth 40 fits 5000

  pub Ends-op_clr_word : (op : ℕ) → Ends (op_clr_word op)
  unfolding op_clr_word
  Ends-op_clr_word op = search (operand_rules, Ends-clr_instr) depth 40 fits 5000

  pub Ends-op_clr_long : (op : ℕ) → Ends (op_clr_long op)
  unfolding op_clr_long
  Ends-op_clr_long op = search (operand_rules, Ends-clr_instr) depth 40 fits 5000

  pub Ends-op_move_usp : (op : ℕ) → Ends (op_move_usp op)
  unfolding op_move_usp
  Ends-op_move_usp op = search (operand_rules) depth 40 fits 5000

  Ends-movem_load :
      (rounds : ℕ) (mask : ℕ) (size : ℕ) (i : ℕ) (addr : ℕ)
      → Ends (movem_load rounds mask size i addr)
  unfolding movem_load
  Ends-movem_load zero mask size i addr = search operand_rules
  Ends-movem_load (suc rounds) mask size i addr =
      search (operand_rules, Ends-movem_load rounds) depth 40 fits 5000

  Ends-movem_store :
      (rounds : ℕ) (down : Bool) (mask : ℕ) (size : ℕ) (k : ℕ) (addr : ℕ)
      → Ends (movem_store rounds down mask size k addr)
  unfolding movem_store
  Ends-movem_store zero down mask size k addr = search operand_rules
  Ends-movem_store (suc rounds) down mask size k addr =
      search (operand_rules, Ends-movem_store rounds) depth 40 fits 5000

  pub Ends-op_movem : (op : ℕ) → Ends (op_movem op)
  unfolding op_movem
  Ends-op_movem op = search (operand_rules, Ends-movem_load, Ends-movem_store) depth 40 fits 5000

  pub Ends-op_link_unlk : (op : ℕ) → Ends (op_link_unlk op)
  unfolding op_link_unlk
  Ends-op_link_unlk op = search (operand_rules) depth 40 fits 5000
