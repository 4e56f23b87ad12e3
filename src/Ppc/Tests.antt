-- ===== src/Ppc/Tests.antt =====
-- The theorems of the PowerPC at concrete instructions.
use monte_lauro_ml_cd32_ppc.Base.{
  ℕ, ◌+◌, ◌*◌, ◌/◌, ◌%◌, true, false, none, some, ◌==◌, ◌≡◌, refl, arith, inl, Bytes, update,
}
use monte_lauro_ml_cd32_ppc.Base.Run.{value}
use monte_lauro_ml_cd32_ppc.Base.Exec.{ok, fault, ◌>>=◌}
use monte_lauro_ml_cd32_ppc.Memory
use monte_lauro_ml_cd32_ppc.Memory.Access.{IsValid}
use monte_lauro_ml_cd32_ppc.Interrupt
use monte_lauro_ml_cd32_ppc.Bus
use monte_lauro_ml_cd32_ppc.Bus.{Bus}
use monte_lauro_ml_cd32_ppc.Bus.Access
use monte_lauro_ml_cd32_ppc.Bus.Interface.{BusInterface, bus_interface}
use monte_lauro_ml_cd32_ppc.Bus.Ram.{ram_stack}
use monte_lauro_ml_cd32_ppc.ColdFire.Frames.{StackMemory}
use monte_lauro_ml_cd32_ppc.Ppc.{Core, PpcRegs, Reaches, page_fault, with_regs, set_gpr}
use monte_lauro_ml_cd32_ppc.Ppc.Mmu.{translate, bat_lookup}
use monte_lauro_ml_cd32_ppc.Ppc.Arith.{op_subf, op_subfc, op_subfe, op_neg}
use monte_lauro_ml_cd32_ppc.Ppc.Logic.{op_cmp, op_rlwinm}
use monte_lauro_ml_cd32_ppc.Ppc.Storage.{op_stw, op_stwu, op_lwz}
use monte_lauro_ml_cd32_ppc.Ppc.Special.{op_mtspr, op_mfspr}
use monte_lauro_ml_cd32_ppc.Ppc.Branch.{op_bc}
use monte_lauro_ml_cd32_ppc.Ppc.Dispatch.{step, interrupted, dispatch}
use monte_lauro_ml_cd32_ppc.Ppc.Branches.{op_bc-bdnz, op_cmp-op_bc}
use monte_lauro_ml_cd32_ppc.Ppc.Interrupts.{step-rfi}
use monte_lauro_ml_cd32_ppc.Ppc.Sums.{subtractions}
use monte_lauro_ml_cd32_ppc.Ppc.Registers.{op_mtspr-op_mfspr}
use monte_lauro_ml_cd32_ppc.Ppc.Pages.{translate-no_page, translate-block}
use monte_lauro_ml_cd32_ppc.Ppc.Accesses.{op_stw-op_lwz, op_stwu-op_lwz}
use monte_lauro_ml_cd32_ppc.Ppc.Rotations.{op_rlwinm-shifts}

instance abbrev machine_bus : BusInterface
machine_bus = bus_interface false

abbrev bios : Bytes
bios = record { len = 0; cell = λ i. 0 }

abbrev regs_at : ℕ → PpcRegs
regs_at msr = record {
  gpr = λ i. i * 0x1000 + i;
  pc = 0x1004;
  lr = 0x2000;
  ctr = 1;
  cr = 0;
  xer = 0;
  msr = msr;
  srr0 = 0;
  srr1 = 0;
  sr = λ i. 0;
  sdr1 = 0x1_0000;
  ibat = λ i. 0;
  dbat = λ i. 0;
  tlb_miss = false;
}

abbrev core_at : ℕ → Core
core_at msr = (record { regs = regs_at msr; halt = false; trace = false }, Bus.new bios)

new-bus-IsValid : IsValid (Bus.new bios).mem
unfolding Bus.new Memory.new
new-bus-IsValid = record { unified_len = refl; local_len = refl; rom_len = refl }

abbrev stack : StackMemory (bus_interface false) 0x1000 0x8000
stack = ram_stack false 0x1000 0x8000 (omega arith, inl (omega arith))

-- an external interrupt that is pending
abbrev core_due : Core
core_due =
    let s = core_at 0x8040 in
    (
      s.0,
      record s.1 {
        intc = record {
          lines = λ i. i == 1;
          pending_ppc = true;
          pending_cf_level = 0;
          pending_cf_vector = 0;
        };
      },
    )

core_due-interrupted : interrupted core_due ≡ true
unfolding Access.ppc_irq_pending Interrupt.ppc_irq_pending
core_due-interrupted = refl

step-rfi_example : Reaches (step core_due) (λ t.
    (t.0.regs.pc ≡ 0x500)
    × ((u : Core) → u.0.regs.msr ≡ t.0.regs.msr → interrupted u ≡ false)
    × (dispatch 0x4C00_0064 t
        ≡ value
            (with_regs (record core_due.0.regs { srr0 = 0x1004; srr1 = 0x8040 }) core_due, ok 1)))
step-rfi_example = step-rfi core_due refl core_due-interrupted

-- BDNZ back by 4 with a counter of 1
op_bc-bdnz_example :
    Reaches (op_bc 0x4200_FFFC (core_at 0)) (λ t. (t.0.regs.ctr ≡ 0) × (t.0.regs.pc ≡ 0xFFC))
op_bc-bdnz_example = op_bc-bdnz 0x4200_FFFC (core_at 0) refl

-- CMP of r3 with r4 into field 1, and a branch ahead if it is below
op_cmp-op_bc_example :
    Reaches
      ((op_cmp 0x7C83_2000 >>= λ n. op_bc 0x4184_0020) (core_at 0))
      (λ t. t.0.regs.pc ≡ 0x1020)
op_cmp-op_bc_example = op_cmp-op_bc 0x7C83_2000 0x4184_0020 0 (core_at 0) (omega arith) refl refl

subtractions_example :
    Reaches (op_subf 0x7CA3_2000 (core_at 0)) (λ t. t.0.regs.gpr 5 ≡ 0x1001)
    × Reaches (op_neg 0x7CA3_2000 (core_at 0)) (λ t. t.0.regs.gpr 5 ≡ 0xFFFF_CFFD)
    × Reaches (op_subfc 0x7CA3_2000 (core_at 0)) (λ t. t.0.regs.gpr 5 ≡ 0xFFF)
    × Reaches (op_subfe 0x7CA3_2000 (core_at 0)) (λ t. t.0.regs.gpr 5 ≡ 0x1001)
subtractions_example = subtractions 0x7CA3_2000 (core_at 0) (omega arith) (omega arith)

-- LR from r3 and back into r4
op_mtspr-op_mfspr_example :
    Reaches
      ((op_mtspr 0x7C68_03A6 >>= λ n. op_mfspr 0x7C88_02A6) (core_at 0))
      (λ t. t.0.regs.gpr 4 ≡ 0x3003)
op_mtspr-op_mfspr_example = op_mtspr-op_mfspr 0x7C68_03A6 0x7C88_02A6 (core_at 0) refl

op_stw-op_lwz_example :
    Reaches
      ((op_stw 0x9064_0010 >>= λ n. op_lwz 0x80A4_0010) (core_at 0))
      (λ t. (t.0 ≡ record (core_at 0).0 { regs = set_gpr 5 0x3003 (regs_at 0) }) × IsValid t.1.mem)
op_stw-op_lwz_example =
    op_stw-op_lwz 0x1000 0x8000 stack 0x9064_0010 0x80A4_0010 0x4014 (core_at 0) new-bus-IsValid
      (omega arith) (omega arith) (omega arith) (inl (refl, refl)) refl

-- a frame of 16 bytes
op_stwu-op_lwz_example : Reaches (op_stwu 0x94E7_FFF0 (core_at 0)) (λ t.
    (t.0.regs.gpr 7 ≡ 0x6FF7)
    × (Access.read_word t.1 0x6FF7 ≡ some 0x7007)
    × Reaches (op_lwz 0x80E7_0000 t) (λ u.
      ((j : ℕ) → u.0.regs.gpr j ≡ (regs_at 0).gpr j)
      × (record u.0.regs { gpr = (regs_at 0).gpr } ≡ regs_at 0)))
op_stwu-op_lwz_example =
    op_stwu-op_lwz 0x1000 0x8000 stack 0x94E7_FFF0 0x80E7_0000 0x6FF7 (core_at 0) new-bus-IsValid
      (omega arith) (omega arith) (omega arith) (omega arith) refl refl refl refl (inl (refl, refl))

op_rlwinm-shifts_example :
    Reaches
      (op_rlwinm 0x5465_2036 (core_at 0))
      (λ t. t.0.regs.gpr ≡ update (regs_at 0).gpr 5 0x3_0030)
    × Reaches
        (op_rlwinm 0x5465_E13E (core_at 0))
        (λ t. t.0.regs.gpr ≡ update (regs_at 0).gpr 5 0x300)
op_rlwinm-shifts_example =
    op_rlwinm-shifts 0x5465_2036 0x5465_E13E 4 (core_at 0) (omega arith) (omega arith)
      (refl, refl, refl) (refl, refl, refl) (omega arith) (omega arith)

-- with a block of 128 KB from 0x8000_0000 on to 0x2_0000 on
abbrev mapped : PpcRegs
mapped = record (regs_at 0x200) { dbat = update (update (λ i. 0) 0 0x8000_0003) 1 0x2_0000 }

translate-block_example :
    (phys : ℕ) × (translate true mapped 0x8000_1234 (Bus.new bios) ≡ ok phys)
    × (phys / 0x2_0000 ≡ 1)
    × (phys % 0x2_0000 ≡ 0x1234)
translate-block_example =
    translate-block true mapped 0x8000_1234 0 (Bus.new bios) refl (omega arith) refl
      (λ j p q. absurd (omega arith))

no_block : bat_lookup 4 0 0x200 (λ i. 0) 0x8000_1234 ≡ none
unfolding bat_lookup
no_block = refl

translate-no_page_example :
    translate true (regs_at 0x200) 0x8000_1234 (Bus.new bios) ≡ fault (page_fault 0x8000_1234)
translate-no_page_example =
    translate-no_page true (regs_at 0x200) 0x8000_1234 (Bus.new bios) refl no_block refl
