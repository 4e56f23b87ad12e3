-- ===== src/Ppc/Interrupts.antt =====
-- src/cpu/ppc603e.rs, `step` and RFI: an external interrupt and the way back.
use monte_lauro_ml_cd32_ppc.Base.{
  ℕ, true, false, ◌&&◌, test_bit, clear_bit, ◌≡◌, refl, ap, ◌∙◌, arith,
}
use monte_lauro_ml_cd32_ppc.Base.Run.{value}
use monte_lauro_ml_cd32_ppc.Base.Exec.{ok, pure, ◌>>=◌, continue}
use monte_lauro_ml_cd32_ppc.Base.Arms.{select}
use monte_lauro_ml_cd32_ppc.Bus.Interface.{BusInterface}
use monte_lauro_ml_cd32_ppc.Ppc.{Core, Reaches, with_regs, on_regs}
use monte_lauro_ml_cd32_ppc.Ppc.Branch.{op_xlform, take_extint}
use monte_lauro_ml_cd32_ppc.Ppc.Dispatch.{step, interrupted, dispatch, arms}

enable-cleared : (msr : ℕ) → test_bit 15 (clear_bit 15 msr) ≡ false
enable-cleared msr = ground arith

module _ ⦃bus : BusInterface⦄ where
  -- An external interrupt that is enabled and pending is taken before the next instruction: the
  -- processor goes to the vector 0x500, where none is taken as long as the machine state register is
  -- not changed, whatever the bus asks for, and RFI then gives back every register and the bus, but
  -- for SRR0 and SRR1, which keep the program counter and the machine state.
  pub step-rfi :
      (s : Core)
      → s.0.halt ≡ false
      → interrupted s ≡ true
      → Reaches (step s) (λ t.
        (t.0.regs.pc ≡ 0x500)
        × ((u : Core) → u.0.regs.msr ≡ t.0.regs.msr → interrupted u ≡ false)
        × (dispatch 0x4C00_0064 t
            ≡ value
                (with_regs (record s.0.regs { srr0 = s.0.regs.pc; srr1 = s.0.regs.msr }) s, ok 1)))
  unfolding step take_extint on_regs pure ◌>>=◌ continue dispatch arms select op_xlform
  step-rfi s h e = record {
    after = _;
    done = rw h (rw e refl);
    holds = (
      refl,
      λ u m.
          ap (λ x. test_bit 15 x && bus.ppc_irq_pending u.1) m
          ∙ ap (λ b. b && bus.ppc_irq_pending u.1) (enable-cleared s.0.regs.msr),
      refl,
    );
  }
