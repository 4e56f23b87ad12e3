-- ===== src/Save/Processors.antt =====
-- src/save.rs: the sections of the two processors. A section that is too short is refused before
-- anything is read.
use monte_lauro_ml_cd32_ppc.Base.{
  ℕ, ◌+◌, ◌*◌, Bool, not, List, ◌++◌, if◌then◌else◌, ltb, ◌==◌, length,
}
use monte_lauro_ml_cd32_ppc.Base.Run.{Run, value, panic, out_of_fuel}
use monte_lauro_ml_cd32_ppc.Base.Exec.{Exit, fault, pure, ◌>>=◌}
use monte_lauro_ml_cd32_ppc.ColdFire.{ColdFire}
use monte_lauro_ml_cd32_ppc.Ppc.{Ppu}
use monte_lauro_ml_cd32_ppc.Save.{SaveError, size_mismatch, Reader, to_be, field, words, read_words}

-- `b as u8`
abbrev pub flag : Bool → ℕ
flag b = if b then 1 else 0

-- the result of a section, whose last bytes are not read
abbrev pub loaded : {A : Type 0} → Run (List ℕ × Exit SaveError A) → Run (Exit SaveError A)
loaded (value (rest, e)) = value e
loaded panic = panic
loaded out_of_fuel = out_of_fuel

unfoldable pub sized : {A : Type 0} → ℕ → ℕ → Reader A → List ℕ → Run (Exit SaveError A)
sized sec expected reader body =
    if ltb (length body) expected
    then value (fault (size_mismatch sec expected (length body)))
    else loaded (reader body)

-- `data[off] != 0`
unfoldable pub read_flag : Reader Bool
read_flag = field 1 >>= λ v. pure (not (v == 0))

unfoldable pub save_ppc : Ppu → List ℕ
save_ppc p =
    let r = p.regs in
    words r.gpr 0 32
    ++ (to_be 4 r.pc
        ++ (to_be 4 r.lr
            ++ (to_be 4 r.ctr
                ++ (to_be 4 r.cr
                    ++ (to_be 4 r.xer
                        ++ (to_be 4 r.msr
                            ++ (to_be 4 r.srr0
                                ++ (to_be 4 r.srr1
                                    ++ (words r.sr 0 16
                                        ++ (to_be 4 r.sdr1
                                            ++ (words r.ibat 0 8
                                                ++ (words r.dbat 0 8
                                                    ++ to_be 1 (flag p.halt)))))))))))))

unfoldable pub read_ppc : Ppu → Reader Ppu
unfolding read_flag
read_ppc p = do
  gpr ← read_words 32 0 p.regs.gpr
  pc ← field 4
  lr ← field 4
  ctr ← field 4
  cr ← field 4
  xer ← field 4
  msr ← field 4
  srr0 ← field 4
  srr1 ← field 4
  sr ← read_words 16 0 p.regs.sr
  sdr1 ← field 4
  ibat ← read_words 8 0 p.regs.ibat
  dbat ← read_words 8 0 p.regs.dbat
  halt ← read_flag
  pure (record p {
    regs = record p.regs {
      gpr = gpr;
      pc = pc;
      lr = lr;
      ctr = ctr;
      cr = cr;
      xer = xer;
      msr = msr;
      srr0 = srr0;
      srr1 = srr1;
      sr = sr;
      sdr1 = sdr1;
      ibat = ibat;
      dbat = dbat;
    };
    halt = halt;
  })

unfoldable pub load_ppc : Ppu → List ℕ → Run (Exit SaveError Ppu)
unfolding sized read_ppc
load_ppc p = sized 1 (32 * 4 + 8 * 4 + 16 * 4 + 4 + 8 * 4 + 8 * 4 + 1) (read_ppc p)

unfoldable pub save_cf : ColdFire → List ℕ
save_cf c =
    words c.regs.d 0 8
    ++ (words c.regs.a 0 8 ++ (to_be 4 c.regs.pc ++ (to_be 2 c.regs.sr ++ to_be 1 (flag c.halt))))

unfoldable pub read_cf : ColdFire → Reader ColdFire
unfolding read_flag
read_cf c = do
  d ← read_words 8 0 c.regs.d
  a ← read_words 8 0 c.regs.a
  pc ← field 4
  sr ← field 2
  halt ← read_flag
  pure (record c { regs = record { d = d; a = a; pc = pc; sr = sr }; halt = halt })

unfoldable pub load_cf : ColdFire → List ℕ → Run (Exit SaveError ColdFire)
unfolding sized read_cf
load_cf c = sized 2 (8 * 4 + 8 * 4 + 4 + 2 + 1) (read_cf c)
