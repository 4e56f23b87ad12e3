-- ===== src/Ppc/Storage.antt =====
-- src/cpu/ppc603e.rs: loads and stores. The address is translated first, and the form with update
-- leaves it in `ra` once the access has succeeded.
use monte_lauro_ml_cd32_ppc.Base.{ℕ, Option, u8, u16, sext16, add32}
use monte_lauro_ml_cd32_ppc.Base.Run.{Run}
use monte_lauro_ml_cd32_ppc.Base.Exec.{Done, pure, ◌>>=◌, ◌>>◌}
use monte_lauro_ml_cd32_ppc.Bus.Interface.{BusInterface}
use monte_lauro_ml_cd32_ppc.Ppc.{
  PpcRegs, rd_of, ra_of, rb_of, set_gpr, gpr_or_zero, plus_si, Ppc, get_regs, on_regs, reading,
  writing,
}
use monte_lauro_ml_cd32_ppc.Ppc.Mmu.{data_translate}

-- the address of an instruction, of its form with update, and of its indexed form
abbrev pub ea_of : ℕ → PpcRegs → ℕ
ea_of insn r = plus_si (gpr_or_zero (ra_of insn) r) insn

abbrev pub ea_update : ℕ → PpcRegs → ℕ
ea_update insn r = plus_si (r.gpr (ra_of insn)) insn

abbrev ea_indexed : ℕ → PpcRegs → ℕ
ea_indexed insn r = add32 (gpr_or_zero (ra_of insn) r) (r.gpr (rb_of insn))

module _ ⦃bus : BusInterface⦄ where
  unfoldable pub load : (bus.State → ℕ → Option ℕ) → ℕ → Ppc ℕ
  load read ea = do addr ← data_translate ea; reading read ea addr

  unfoldable pub store : (ℕ → ℕ → bus.State → Run (Option bus.State)) → ℕ → ℕ → Ppc Done
  store write ea val = do addr ← data_translate ea; writing write ea addr val

  unfoldable pub op_lwz : ℕ → Ppc ℕ
  op_lwz insn = do
    r ← get_regs
    val ← load bus.read_word (ea_of insn r)
    on_regs (set_gpr (rd_of insn) val)

  unfoldable pub op_lwzu : ℕ → Ppc ℕ
  op_lwzu insn = do
    r ← get_regs
    val ← load bus.read_word (ea_update insn r)
    on_regs (λ r1. set_gpr (ra_of insn) (ea_update insn r) (set_gpr (rd_of insn) val r1))

  unfoldable pub op_stw : ℕ → Ppc ℕ
  op_stw insn = do r ← get_regs; store bus.write_word (ea_of insn r) (r.gpr (rd_of insn)); pure 1

  unfoldable pub op_stwu : ℕ → Ppc ℕ
  op_stwu insn = do
    r ← get_regs
    store bus.write_word (ea_update insn r) (r.gpr (rd_of insn))
    on_regs (set_gpr (ra_of insn) (ea_update insn r))

  unfoldable pub op_lbz : ℕ → Ppc ℕ
  op_lbz insn = do
    r ← get_regs
    val ← load bus.read_byte (ea_of insn r)
    on_regs (set_gpr (rd_of insn) val)

  unfoldable pub op_lbzu : ℕ → Ppc ℕ
  op_lbzu insn = do
    r ← get_regs
    val ← load bus.read_byte (ea_update insn r)
    on_regs (λ r1. set_gpr (ra_of insn) (ea_update insn r) (set_gpr (rd_of insn) val r1))

  unfoldable pub op_stb : ℕ → Ppc ℕ
  op_stb insn = do
    r ← get_regs
    store bus.write_byte (ea_of insn r) (u8 (r.gpr (rd_of insn)))
    pure 1

  unfoldable pub op_stbu : ℕ → Ppc ℕ
  op_stbu insn = do
    r ← get_regs
    store bus.write_byte (ea_update insn r) (u8 (r.gpr (rd_of insn)))
    on_regs (set_gpr (ra_of insn) (ea_update insn r))

  unfoldable pub op_lhz : ℕ → Ppc ℕ
  op_lhz insn = do
    r ← get_regs
    val ← load bus.read_half (ea_of insn r)
    on_regs (set_gpr (rd_of insn) val)

  unfoldable pub op_lhzu : ℕ → Ppc ℕ
  op_lhzu insn = do
    r ← get_regs
    val ← load bus.read_half (ea_update insn r)
    on_regs (λ r1. set_gpr (ra_of insn) (ea_update insn r) (set_gpr (rd_of insn) val r1))

  unfoldable pub op_lha : ℕ → Ppc ℕ
  op_lha insn = do
    r ← get_regs
    val ← load bus.read_half (ea_of insn r)
    on_regs (set_gpr (rd_of insn) (sext16 val))

  unfoldable pub op_lhau : ℕ → Ppc ℕ
  op_lhau insn = do
    r ← get_regs
    val ← load bus.read_half (ea_update insn r)
    on_regs (λ r1. set_gpr (ra_of insn) (ea_update insn r) (set_gpr (rd_of insn) (sext16 val) r1))

  unfoldable pub op_sth : ℕ → Ppc ℕ
  op_sth insn = do
    r ← get_regs
    store bus.write_half (ea_of insn r) (u16 (r.gpr (rd_of insn)))
    pure 1

  unfoldable pub op_sthu : ℕ → Ppc ℕ
  op_sthu insn = do
    r ← get_regs
    store bus.write_half (ea_update insn r) (u16 (r.gpr (rd_of insn)))
    on_regs (set_gpr (ra_of insn) (ea_update insn r))

  unfoldable pub op_lwzx : ℕ → Ppc ℕ
  op_lwzx insn = do
    r ← get_regs
    val ← load bus.read_word (ea_indexed insn r)
    on_regs (set_gpr (rd_of insn) val)

  unfoldable pub op_stwx : ℕ → Ppc ℕ
  op_stwx insn = do
    r ← get_regs
    store bus.write_word (ea_indexed insn r) (r.gpr (rd_of insn))
    pure 1
