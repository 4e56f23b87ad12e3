-- ===== src/Ppc/Ends.antt =====
-- Every instruction of the PowerPC comes to an end, if the writes of the bus do.
use monte_lauro_ml_cd32_ppc.Base.{
  ℕ, refl, Bool, true, false, Option, none, some, ◌≢◌, if◌then◌else◌, bits,
}
use monte_lauro_ml_cd32_ppc.Base.Run.{Run, value, panic, out_of_fuel}
use monte_lauro_ml_cd32_ppc.Base.Exec.{Exit, Ends, ends_rules, Ends-pure, pure, ◌>>=◌}
use monte_lauro_ml_cd32_ppc.Base.Arms.{AllEnd, Ends-select}
use monte_lauro_ml_cd32_ppc.Bus.Interface.{BusInterface, WritesEnd}
use monte_lauro_ml_cd32_ppc.Ppc.{
  Core, PpcError, PpcRegs, get_regs, set_regs, on_regs, or_fault, reading, stored, writing,
}
use monte_lauro_ml_cd32_ppc.Ppc.Mmu.{translated, data_translate}
use monte_lauro_ml_cd32_ppc.Ppc.Arith.{
  op_addis, op_addi, op_addic, op_subfic, op_mulli, op_subfc, op_addc, op_add, op_neg, op_subf,
  op_subfe, op_addme, op_mulhw, op_mulhwu, op_mullw, op_divw, op_divwu,
}
use monte_lauro_ml_cd32_ppc.Ppc.Logic.{
  op_cmpi, op_cmpli, op_cmp, op_cmpl, op_ori, op_oris, op_andi, op_rlwinm, op_rlwimi, op_or, op_nor,
  op_and, op_andc, op_cntlzw,
}
use monte_lauro_ml_cd32_ppc.Ppc.Storage.{
  load, store, op_lwz, op_lwzu, op_stw, op_stwu, op_lbz, op_lbzu, op_stb, op_stbu, op_lhz, op_lhzu,
  op_lha, op_lhau, op_sth, op_sthu, op_lwzx, op_stwx,
}
use monte_lauro_ml_cd32_ppc.Ppc.Special.{
  op_mtmsr, op_mfmsr, op_mtcrf, op_mfcr, op_mtspr, op_mfspr, op_mfsr, op_mtsr,
}
use monte_lauro_ml_cd32_ppc.Ppc.Branch.{op_xlform, op_bc, op_b, take_extint}
use monte_lauro_ml_cd32_ppc.Ppc.Dispatch.{
  arms, x_arms, op_nop, op_ill, op_xform, dispatch, fetch, step, interrupted,
}

module _ ⦃bus : BusInterface⦄ where
  Ends-get_regs : Ends get_regs
  unfolding get_regs
  Ends-get_regs = record { at = λ s h. cc }

  Ends-set_regs : (f : PpcRegs → PpcRegs) → Ends (set_regs f)
  unfolding set_regs
  Ends-set_regs f = record { at = λ s h. cc }

  Ends-on_regs : (f : PpcRegs → PpcRegs) → Ends (on_regs f)
  unfolding on_regs
  Ends-on_regs f = record { at = λ s h. cc }

  or_fault-ends : (ea : ℕ) (o : Option ℕ) (s : Core) → or_fault ea o s ≢ out_of_fuel
  or_fault-ends ea none s h = cc
  or_fault-ends ea (some v) s h = cc

  Ends-reading : (read : bus.State → ℕ → Option ℕ) (ea addr : ℕ) → Ends (reading read ea addr)
  unfolding reading
  Ends-reading read ea addr = record { at = λ s. or_fault-ends ea _ s }

  Ends-translated : (is_data : Bool) (addr : ℕ) → Ends (translated is_data addr)
  unfolding translated
  Ends-translated is_data addr = record { at = λ s h. cc }

  Ends-load : (read : bus.State → ℕ → Option ℕ) (ea : ℕ) → Ends (load read ea)
  unfolding load data_translate
  Ends-load read ea = search (ends_rules, Ends-translated, Ends-reading)

  -- a write that ends, whatever it is given
  abbrev Write : Type 0
  Write = ℕ → ℕ → bus.State → Run (Option bus.State)

  abbrev Stops : Write → Type 0
  Stops write = (addr val : ℕ) (b : bus.State) → write addr val b ≢ out_of_fuel

  stored-ends :
      (ea : ℕ) (s : Core) (r : Run (Option bus.State))
      → r ≢ out_of_fuel
      → stored ea s r ≢ out_of_fuel
  stored-ends ea s (value none) h = λ p. cc
  stored-ends ea s (value (some b)) h = λ p. cc
  stored-ends ea s panic h = λ p. cc
  stored-ends ea s out_of_fuel h = absurd (h refl)

  Ends-writing : (write : Write) (ea addr val : ℕ) → Stops write → Ends (writing write ea addr val)
  unfolding writing
  Ends-writing write ea addr val h = record { at = λ s. stored-ends ea s _ (h addr val s.1) }

  Ends-store : (write : Write) (ea val : ℕ) → Stops write → Ends (store write ea val)
  unfolding store data_translate
  Ends-store write ea val h = search (ends_rules, Ends-translated, Ends-writing, h)

  Ends-op_nop : (insn : ℕ) → Ends (op_nop insn)
  unfolding op_nop
  Ends-op_nop insn = Ends-pure 1

  Ends-op_ill : (insn : ℕ) → Ends (op_ill insn)
  unfolding op_ill
  Ends-op_ill insn = search (ends_rules, Ends-get_regs)

  ruleset storage_rules = (ends_rules, Ends-get_regs, Ends-on_regs, Ends-load, Ends-store)

  module _ (writes : WritesEnd bus) where
    x_arms-AllEnd : AllEnd x_arms
    unfolding x_arms op_subfc op_or op_nor op_and op_andc op_neg op_cntlzw op_add op_addc op_subf
        op_subfe op_addme op_mulhw op_mulhwu op_mullw op_divw op_divwu op_mfsr op_mtsr op_cmp
        op_cmpl op_mtmsr op_mfmsr op_mtcrf op_mfcr op_lwzx op_stwx op_mtspr op_mfspr
    x_arms-AllEnd = search (storage_rules, writes.word) depth 60 fits 20000

    Ends-op_xform : (insn : ℕ) → Ends (op_xform insn)
    unfolding op_xform
    Ends-op_xform insn =
        Ends-select (bits 1 10 insn) x_arms op_nop insn x_arms-AllEnd (Ends-op_nop insn)

    arms-AllEnd : AllEnd arms
    unfolding arms op_subfic op_addi op_addic op_addis op_xlform op_mulli op_cmpi op_cmpli op_ori
        op_oris op_andi op_rlwinm op_rlwimi op_lwz op_lwzu op_lbz op_lbzu op_stb op_stbu op_lhz
        op_lhzu op_lha op_lhau op_sth op_sthu op_stw op_stwu op_bc op_b
    arms-AllEnd =
        search (storage_rules, writes.byte, writes.half, writes.word, Ends-op_xform) depth 60 fits
          20000

    Ends-dispatch : (insn : ℕ) → Ends (dispatch insn)
    unfolding dispatch
    Ends-dispatch insn =
        Ends-select (bits 26 6 insn) arms op_ill insn arms-AllEnd (Ends-op_ill insn)

    Ends-fetch : Ends fetch
    unfolding fetch
    Ends-fetch =
        search
          (ends_rules, Ends-get_regs, Ends-set_regs, Ends-translated, Ends-reading, Ends-dispatch)
          depth 30

    if-ends :
        (b : Bool) (x y : Run (Core × Exit PpcError ℕ))
        → x ≢ out_of_fuel
        → y ≢ out_of_fuel
        → (if b then x else y) ≢ out_of_fuel
    if-ends true x y h k = h
    if-ends false x y h k = k

    Ends-take_extint : Ends {A = ℕ} (take_extint >>= λ n. pure 1)
    unfolding take_extint
    Ends-take_extint = search (ends_rules, Ends-on_regs)

    pub Ends-step : Ends step
    unfolding step
    Ends-step = record {
      at = λ s.
          if-ends s.0.halt _ _ (λ h. cc)
            (if-ends (interrupted s) _ _ (Ends-take_extint.at s) (Ends-fetch.at s));
    }
