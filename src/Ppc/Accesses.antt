-- ===== src/Ppc/Accesses.antt =====
-- src/cpu/ppc603e.rs: a word that is stored and loaded again, and the frame of a function.
use monte_lauro_ml_cd32_ppc.Base.{
  ℕ, ◌+◌, ◌%◌, ◌^◌, ◌<◌, ◌≤◌, true, false, some, if◌then◌else◌, ◌==◌, sext16, update, ◌≡◌, ◌≢◌,
  refl, ap, sym, subst, arith, ◌⊎◌, inl, inr,
}
use monte_lauro_ml_cd32_ppc.Base.Run.{value}
use monte_lauro_ml_cd32_ppc.Base.Exec.{ok, pure, ◌>>=◌, continue}
use monte_lauro_ml_cd32_ppc.Bus.Interface.{BusInterface}
use monte_lauro_ml_cd32_ppc.ColdFire.Frames.{StackMemory}
use monte_lauro_ml_cd32_ppc.Ppc.{
  Core, PpcRegs, Reaches, get_regs, on_regs, with_regs, reading, writing, rd_of, ra_of, set_gpr,
}
use monte_lauro_ml_cd32_ppc.Ppc.Mmu.{translate, translates, bat_lookup, translated, data_translate}
use monte_lauro_ml_cd32_ppc.Ppc.Storage.{load, store, op_stw, op_stwu, op_lwz, ea_of, ea_update}

update_same : (f : ℕ → ℕ) (i v : ℕ) → update f i v i ≡ v
update_same f i v = ground arith

-- two writes to one register, the second of what it held at first
restored : (f : ℕ → ℕ) (i v j : ℕ) → update (update f i v) i (f i) j ≡ f j
restored f i v j = ground arith

frame_address :
    (f : ℕ → ℕ) (i j d ea : ℕ)
    → j ≡ i
    → i ≢ 0
    → d ≡ 0
    → ea < 2 ^ 32
    → ((if j == 0 then 0 else update f i ea j) + d) % 2 ^ 32 ≡ ea
frame_address f i j d ea e h k l = ground arith

module _ ⦃bus : BusInterface⦄ where
  -- a data address is where it is with translation off, or a block of the DBAT registers says
  abbrev MapsTo : PpcRegs → ℕ → ℕ → Type 0
  MapsTo r ea addr =
      ((translates true r ≡ false) × (ea ≡ addr))
      ⊎ ((translates true r ≡ true) × (bat_lookup 4 0 r.msr r.dbat ea ≡ some addr))

  translate-mapped :
      (r : PpcRegs) (ea addr : ℕ) (b : bus.State)
      → MapsTo r ea addr
      → translate true r ea b ≡ ok addr
  unfolding translate
  translate-mapped r ea addr b (inl (off, same)) = rw off (ap ok same)
  translate-mapped r ea addr b (inr (on, found)) = rw on (rw found refl)

  store-mapped :
      (ea addr val : ℕ) (s : Core) (b : bus.State)
      → MapsTo s.0.regs ea addr
      → bus.write_word addr val s.1 ≡ value (some b)
      → store bus.write_word ea val s ≡ value ((s.0, b), ok tt)
  unfolding store data_translate translated writing ◌>>=◌ continue
  store-mapped ea addr val s b h w = rw (translate-mapped s.0.regs ea addr s.1 h) (rw w refl)

  load-mapped :
      (ea addr val : ℕ) (s : Core)
      → MapsTo s.0.regs ea addr
      → bus.read_word s.1 addr ≡ some val
      → load bus.read_word ea s ≡ value (s, ok val)
  unfolding load data_translate translated reading ◌>>=◌ continue
  load-mapped ea addr val s h w = rw (translate-mapped s.0.regs ea addr s.1 h) (rw w refl)

  op_stw-mapped :
      (insn addr : ℕ) (s : Core) (b : bus.State)
      → MapsTo s.0.regs (ea_of insn s.0.regs) addr
      → bus.write_word addr (s.0.regs.gpr (rd_of insn)) s.1 ≡ value (some b)
      → op_stw insn s ≡ value ((s.0, b), ok 1)
  unfolding op_stw get_regs pure ◌>>=◌ continue
  op_stw-mapped insn addr s b h w =
      rw (store-mapped (ea_of insn s.0.regs) addr (s.0.regs.gpr (rd_of insn)) s b h w) refl

  op_stwu-mapped :
      (insn addr : ℕ) (s : Core) (b : bus.State)
      → MapsTo s.0.regs (ea_update insn s.0.regs) addr
      → bus.write_word addr (s.0.regs.gpr (rd_of insn)) s.1 ≡ value (some b)
      → op_stwu insn s
        ≡ value (with_regs (set_gpr (ra_of insn) (ea_update insn s.0.regs) s.0.regs) (s.0, b), ok 1)
  unfolding op_stwu get_regs on_regs ◌>>=◌ continue
  op_stwu-mapped insn addr s b h w =
      rw (store-mapped (ea_update insn s.0.regs) addr (s.0.regs.gpr (rd_of insn)) s b h w) refl

  pub op_lwz-mapped :
      (insn addr val : ℕ) (s : Core)
      → MapsTo s.0.regs (ea_of insn s.0.regs) addr
      → bus.read_word s.1 addr ≡ some val
      → op_lwz insn s ≡ value (with_regs (set_gpr (rd_of insn) val s.0.regs) s, ok 1)
  unfolding op_lwz get_regs on_regs ◌>>=◌ continue
  op_lwz-mapped insn addr val s h w = rw (load-mapped (ea_of insn s.0.regs) addr val s h w) refl

  module _ (lo hi : ℕ) (stack : StackMemory bus lo hi) where
    -- A register that STW stores, into memory from `lo` up to `hi`, is what LWZ loads from the same
    -- effective address into any register, where translation is off or a block maps the address; no
    -- other register changes.
    pub op_stw-op_lwz :
        (stw lwz addr : ℕ) (s : Core)
        → stack.Good s.1
        → s.0.regs.gpr (rd_of stw) < 2 ^ 32
        → lo ≤ addr
        → addr + 4 ≤ hi
        → MapsTo s.0.regs (ea_of stw s.0.regs) addr
        → ea_of lwz s.0.regs ≡ ea_of stw s.0.regs
        → Reaches ((op_stw stw >>= λ n. op_lwz lwz) s) (λ t.
          (t.0 ≡ record s.0 { regs = set_gpr (rd_of lwz) (s.0.regs.gpr (rd_of stw)) s.0.regs })
          × stack.Good t.1)
    unfolding ◌>>=◌ continue
    op_stw-op_lwz stw lwz addr s good hv h1 h2 m e =
        let w = stack.write_word addr (s.0.regs.gpr (rd_of stw)) s.1 h1 h2 hv good in
        record {
          after = _;
          done = rw (op_stw-mapped stw addr s w.after m w.wrote) (
              op_lwz-mapped lwz addr (s.0.regs.gpr (rd_of stw)) (s.0, w.after)
                (subst (λ ea. MapsTo s.0.regs ea addr) (sym e) m) w.word);
          holds = (refl, w.good);
        }

    -- The frame of a function, in memory from `lo` up to `hi` that keeps what is written, where
    -- translation is off or a block maps the new address: STWU of a register below 2 ^ 32, other than
    -- register 0, with update of the same one puts the register below by the size of the frame with its
    -- old value there, and LWZ with displacement 0 takes the frame off: every register is what it was.
    pub op_stwu-op_lwz :
        (stwu lwz addr : ℕ) (s : Core)
        → stack.Good s.1
        → s.0.regs.gpr (ra_of stwu) < 2 ^ 32
        → lo ≤ addr
        → addr + 4 ≤ hi
        → ra_of stwu ≢ 0
        → rd_of stwu ≡ ra_of stwu
        → rd_of lwz ≡ ra_of stwu
        → ra_of lwz ≡ ra_of stwu
        → sext16 lwz ≡ 0
        → MapsTo s.0.regs (ea_update stwu s.0.regs) addr
        → Reaches (op_stwu stwu s) (λ t.
          (t.0.regs.gpr (ra_of stwu) ≡ ea_update stwu s.0.regs)
          × (bus.read_word t.1 addr ≡ some (s.0.regs.gpr (ra_of stwu)))
          × Reaches (op_lwz lwz t) (λ u.
            ((j : ℕ) → u.0.regs.gpr j ≡ s.0.regs.gpr j)
            × (record u.0.regs { gpr = s.0.regs.gpr } ≡ s.0.regs)))
    op_stwu-op_lwz stwu lwz addr s good hv h1 h2 h0 e1 e2 e3 ez m =
        let old = s.0.regs.gpr (ra_of stwu) in
        let ea = ea_update stwu s.0.regs in
        let pushed = set_gpr (ra_of stwu) ea s.0.regs in
        let w = stack.write_word addr old s.1 h1 h2 hv good in
        let same_ea : ea_of lwz pushed ≡ ea =
          frame_address s.0.regs.gpr (ra_of stwu) (ra_of lwz) (sext16 lwz) ea e3 h0 ez
            (omega arith) in
        record {
          after = _;
          done = op_stwu-mapped stwu addr s w.after m (rw e1 w.wrote);
          holds = (
            update_same s.0.regs.gpr (ra_of stwu) ea,
            w.word,
            record {
              after = _;
              done =
                  op_lwz-mapped lwz addr old (record s.0 { regs = pushed }, w.after)
                    (subst (λ x. MapsTo pushed x addr) (sym same_ea) m) w.word;
              holds = (λ j. rw e2 (restored s.0.regs.gpr (ra_of stwu) ea j), refl);
            },
          );
        }
