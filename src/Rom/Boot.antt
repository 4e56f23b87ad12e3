-- ===== src/Rom/Boot.antt =====
-- src/bin/gen_rom.rs and src/cpu/ppc603e.rs: the wait for the ColdFire with which every PowerPC program
-- of the generator begins.
use monte_lauro_ml_cd32_ppc.Base.{
  ℕ, ◌/◌, ◌%◌, ◌^◌, ◌<◌, false, not, some, List, [], ◌∷◌, if◌then◌else◌, ◌==◌, add32, test_bit,
  take, ◌≡◌, refl, ◌∙◌, ap, arith, inl, inr, Bool-cases,
}
use monte_lauro_ml_cd32_ppc.Base.Run.{value}
use monte_lauro_ml_cd32_ppc.Base.Exec.{ok, ◌>>=◌, continue}
use monte_lauro_ml_cd32_ppc.Base.Arms.{select}
use monte_lauro_ml_cd32_ppc.Bus.Interface.{BusInterface}
use monte_lauro_ml_cd32_ppc.Ppc.{
  Core, PpcRegs, Reaches, get_regs, set_regs, on_regs, with_regs, reading, set_gpr, put_field,
}
use monte_lauro_ml_cd32_ppc.Ppc.Mmu.{translate, translated}
use monte_lauro_ml_cd32_ppc.Ppc.Logic.{op_cmpi, compared_signed}
use monte_lauro_ml_cd32_ppc.Ppc.Branch.{
  op_bc, condition, branch_counting, branch_target, bd_of, linked,
}
use monte_lauro_ml_cd32_ppc.Ppc.Branches.{field_bits}
use monte_lauro_ml_cd32_ppc.Ppc.Accesses.{op_lwz-mapped}
use monte_lauro_ml_cd32_ppc.Ppc.Dispatch.{step, fetch, dispatch, arms}
use monte_lauro_ml_cd32_ppc.Rom.{i_lwz, i_cmpi}
use monte_lauro_ml_cd32_ppc.Rom.Programs.{
  build_ppc_hello, build_ppc_aros, build_ppc_game, spin_branch,
}

-- the three instructions of the wait
abbrev spin : List ℕ
spin = i_lwz 3 0 0 ∷ i_cmpi 3 1 ∷ spin_branch ∷ []

programs_spin :
    (entry : ℕ)
    → (take 3 build_ppc_hello ≡ spin)
      × (take 3 build_ppc_aros ≡ spin)
      × (take 3 (build_ppc_game entry) ≡ spin)
unfolding build_ppc_hello build_ppc_aros build_ppc_game
programs_spin entry = (refl, refl, refl)

not_equal : (v : ℕ) → v < 2 ^ 32 → (compared_signed v 1 / 2 % 2 == 0) ≡ not (v == 1)
not_equal v h = ground arith

compared-lt : (v : ℕ) → compared_signed v 1 < 16
compared-lt v = ground arith

waits :
    (v cr : ℕ) → v < 2 ^ 32 → condition 4 2 (put_field 0 (compared_signed v 1) cr) ≡ not (v == 1)
waits v cr h =
    ap (λ x. x == 0) (field_bits 0 (compared_signed v 1) cr (omega arith) (compared-lt v)).2
    ∙ not_equal v h

spin_regs :
    (r : PpcRegs)
    → r.pc ≡ 0x10C
    → branch_counting spin_branch
        (branch_target spin_branch (bd_of spin_branch) r.pc)
        (linked spin_branch r)
      ≡ record r { pc = if condition 4 2 r.cr then 0x4104 else 0x10C; lr = 0x10C }
spin_regs r h = elim (Bool-cases (condition 4 2 r.cr)) [
  | inl e ↦
      rw e (ap (λ p. record r { pc = branch_target spin_branch (bd_of spin_branch) p; lr = p }) h)
  | inr e ↦ rw e (ap (λ p. record r { pc = p; lr = p }) h)
]

module _ ⦃bus : BusInterface⦄ where
  -- an instruction that is fetched from where the program counter says
  step-plain :
      (insn : ℕ) (s : Core)
      → s.0.halt ≡ false
      → test_bit 15 s.0.regs.msr ≡ false
      → test_bit 8 s.0.regs.msr ≡ false
      → bus.read_word s.1 s.0.regs.pc ≡ some insn
      → step s ≡ dispatch insn (with_regs (record s.0.regs { pc = add32 s.0.regs.pc 4 }) s)
  unfolding step fetch get_regs set_regs translated translate reading ◌>>=◌ continue
  step-plain insn s h ee ir w = rw h (rw ee (rw ir (rw w refl)))

  dispatch-lwz :
      (v : ℕ) (s : Core)
      → test_bit 9 s.0.regs.msr ≡ false
      → bus.read_word s.1 0 ≡ some v
      → dispatch (i_lwz 3 0 0) s ≡ value (with_regs (set_gpr 3 v s.0.regs) s, ok 1)
  unfolding dispatch arms select i_lwz
  dispatch-lwz v s dr w = op_lwz-mapped (i_lwz 3 0 0) 0 v s (inl (dr, refl)) w

  dispatch-cmpi :
      (s : Core)
      → dispatch (i_cmpi 3 1) s
        ≡ value (
          with_regs
              (record s.0.regs {
                cr = put_field 0 (compared_signed (s.0.regs.gpr 3) 1) s.0.regs.cr;
              })
              s,
          ok 1,
        )
  unfolding dispatch arms select i_cmpi op_cmpi on_regs
  dispatch-cmpi s = refl

  dispatch-spin :
      (s : Core)
      → s.0.regs.pc ≡ 0x10C
      → dispatch spin_branch s
        ≡ value (
          with_regs
              (record s.0.regs {
                pc = if condition 4 2 s.0.regs.cr then 0x4104 else 0x10C;
                lr = 0x10C;
              })
              s,
          ok 1,
        )
  unfolding dispatch arms select op_bc on_regs
  dispatch-spin s h = ap (λ r. value (with_regs r s, ok 1)) (spin_regs s.0.regs h)

  -- The wait of the bootstraps, with translation and interrupts off: after its three instructions a
  -- PowerPC that finds 1 in the word at address 0 is past the wait, at 0x10C. One that finds another
  -- word is at 0x4104, behind the program, and not back at its start.
  pub spin_escapes :
      (v : ℕ) (s : Core)
      → s.0.halt ≡ false
      → (test_bit 15 s.0.regs.msr ≡ false)
        × (test_bit 8 s.0.regs.msr ≡ false)
        × (test_bit 9 s.0.regs.msr ≡ false)
      → s.0.regs.pc ≡ 0x100
      → (bus.read_word s.1 0x100 ≡ some (i_lwz 3 0 0))
        × (bus.read_word s.1 0x104 ≡ some (i_cmpi 3 1))
        × (bus.read_word s.1 0x108 ≡ some spin_branch)
      → bus.read_word s.1 0 ≡ some v
      → v < 2 ^ 32
      → Reaches ((step >>= λ l. step >>= λ m. step) s) (λ t.
        (t.0.regs.pc ≡ (if v == 1 then 0x10C else 0x4104)) × (t.0.regs.gpr 3 ≡ v) × (t.1 ≡ s.1))
  unfolding ◌>>=◌ continue
  spin_escapes v s h (ee, ir, dr) p (w0, w1, w2) w hv =
      let s1 = with_regs (set_gpr 3 v (record s.0.regs { pc = 0x104 })) s in
      let s2 =
        with_regs
          (record s1.0.regs { pc = 0x108; cr = put_field 0 (compared_signed v 1) s.0.regs.cr }) s in
      let next = λ (r : PpcRegs). with_regs (record r { pc = add32 r.pc 4 }) s in
      let first : step s ≡ value (s1, ok 1) =
        step-plain (i_lwz 3 0 0) s h ee ir (rw p w0)
        ∙ dispatch-lwz v (next s.0.regs) dr w
        ∙ ap (λ q. value (with_regs (set_gpr 3 v (record s.0.regs { pc = add32 q 4 })) s, ok 1))
            p in
      let second : step s1 ≡ value (s2, ok 1) =
        step-plain (i_cmpi 3 1) s1 h ee ir w1 ∙ dispatch-cmpi (next s1.0.regs) in
      let past = next s2.0.regs in
      record {
        after =
            with_regs
              (record past.0.regs {
                pc = if condition 4 2 past.0.regs.cr then 0x4104 else 0x10C;
                lr = 0x10C;
              })
              past;
        done =
            ap (λ x. continue x (λ l. step >>= λ m. step)) first
            ∙ ap (λ x. continue x (λ m. step)) second
            ∙ step-plain spin_branch s2 h ee ir w2
            ∙ dispatch-spin past refl;
        holds = (
          ap (λ b. if b then 0x4104 else 0x10C) (waits v s.0.regs.cr hv) ∙ ground arith,
          refl,
          refl,
        );
      }
