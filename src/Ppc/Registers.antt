-- ===== src/Ppc/Registers.antt =====
-- src/cpu/ppc603e.rs: the special purpose registers.
use monte_lauro_ml_cd32_ppc.Base.{
  ℕ, Bool, true, ◌&&◌, ◌||◌, if◌then◌else◌, leb, ◌==◌, update, ◌≡◌, refl, ◌∙◌, arith,
}
use monte_lauro_ml_cd32_ppc.Base.Exec.{◌>>=◌, continue}
use monte_lauro_ml_cd32_ppc.Bus.Interface.{BusInterface}
use monte_lauro_ml_cd32_ppc.Ppc.{Core, PpcRegs, Reaches, on_regs, rd_of}
use monte_lauro_ml_cd32_ppc.Ppc.Special.{op_mtspr, op_mfspr, write_spr, read_spr, sprn_of}

-- the registers that are there: LR, CTR, SDR1, SRR0 and SRR1, and the block address registers
abbrev is_known : ℕ → Bool
is_known n = leb 8 n && leb n 9 || leb 25 n && leb n 27 || leb 528 n && leb n 543

-- a register that has been written, and another one
read_spr-write_spr :
    (n m v : ℕ) (r : PpcRegs)
    → is_known n ≡ true
    → read_spr m (write_spr n v r) ≡ (if m == n then v else read_spr m r)
unfolding read_spr write_spr
read_spr-write_spr n m v r h = ground arith

update_same : (f : ℕ → ℕ) (i v : ℕ) → update f i v i ≡ v
update_same f i v = ground arith

module _ ⦃bus : BusInterface⦄ where
  -- MTSPR and then MFSPR: a special purpose register that is there gives back the value that has been
  -- moved to it, and every other one, the unknown ones included, what it gave before.
  pub op_mtspr-op_mfspr :
      (to from : ℕ) (s : Core)
      → is_known (sprn_of to) ≡ true
      → Reaches ((op_mtspr to >>= λ n. op_mfspr from) s) (λ t. t.0.regs.gpr (rd_of from) ≡ (
          if sprn_of from == sprn_of to
          then s.0.regs.gpr (rd_of to)
          else read_spr (sprn_of from) s.0.regs))
  unfolding op_mtspr op_mfspr on_regs ◌>>=◌ continue
  op_mtspr-op_mfspr to from s h =
      let written = write_spr (sprn_of to) (s.0.regs.gpr (rd_of to)) s.0.regs in
      record {
        after = _;
        done = refl;
        holds =
            update_same written.gpr (rd_of from) (read_spr (sprn_of from) written)
            ∙ read_spr-write_spr (sprn_of to) (sprn_of from) (s.0.regs.gpr (rd_of to)) s.0.regs h;
      }
