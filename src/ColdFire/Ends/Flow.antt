-- ===== src/ColdFire/Ends/Flow.antt =====
-- The branches, subroutines and interrupts of the core come to an end.
use monte_lauro_ml_cd32_ppc.Base.{ℕ}
use monte_lauro_ml_cd32_ppc.Base.Exec.{Ends}
use monte_lauro_ml_cd32_ppc.Bus.Interface.{BusInterface, WritesEnd}
use monte_lauro_ml_cd32_ppc.ColdFire.Flow.{
  op_bcc, op_jump, push_word, pop_word, op_jsr, op_bsr, op_rts, op_rte, op_stop, take_interrupt,
}
use monte_lauro_ml_cd32_ppc.ColdFire.Ends.{operand_rules}

module _ ⦃bus : BusInterface⦄ (writes : WritesEnd bus) where
  pub Ends-op_bcc : (op : ℕ) → Ends (op_bcc op)
  unfolding op_bcc
  Ends-op_bcc op = search (operand_rules) depth 40 fits 5000

  pub Ends-op_jump : (op : ℕ) → Ends (op_jump op)
  unfolding op_jump
  Ends-op_jump op = search (operand_rules) depth 40 fits 5000

  Ends-push_word : (val : ℕ) → Ends (push_word val)
  unfolding push_word
  Ends-push_word val = search (operand_rules) depth 40 fits 5000

  Ends-pop_word : Ends pop_word
  unfolding pop_word
  Ends-pop_word = search (operand_rules) depth 40 fits 5000

  pub Ends-op_jsr : Ends op_jsr
  unfolding op_jsr
  Ends-op_jsr = search (operand_rules, Ends-push_word) depth 40 fits 5000

  pub Ends-op_bsr : Ends op_bsr
  unfolding op_bsr
  Ends-op_bsr = search (operand_rules, Ends-push_word) depth 40 fits 5000

  pub Ends-op_rts : Ends op_rts
  unfolding op_rts
  Ends-op_rts = search (operand_rules, Ends-pop_word) depth 40 fits 5000

  pub Ends-op_rte : Ends op_rte
  unfolding op_rte
  Ends-op_rte = search (operand_rules, Ends-pop_word) depth 40 fits 5000

  pub Ends-op_stop : (op : ℕ) → Ends (op_stop op)
  unfolding op_stop
  Ends-op_stop op = search (operand_rules) depth 40 fits 5000

  pub Ends-take_interrupt : (level : ℕ) (vector : ℕ) → Ends (take_interrupt level vector)
  unfolding take_interrupt
  Ends-take_interrupt level vector = search (operand_rules, Ends-push_word) depth 40 fits 5000
