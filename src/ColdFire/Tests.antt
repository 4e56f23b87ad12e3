-- ===== src/ColdFire/Tests.antt =====
-- The theorems of the ColdFire at concrete instructions.
use monte_lauro_ml_cd32_ppc.Base.{
  ℕ, ◌+◌, ◌*◌, ◌/◌, ◌%◌, ◌^◌, ◌<◌, ◌≤◌, false, not, none, some, if◌then◌else◌, ltb, leb, ◌==◌, ◌≡◌,
  refl, arith, inl, Bytes, bits, sub32,
}
use monte_lauro_ml_cd32_ppc.Base.Int.{signed, ltb_ℤ}
use monte_lauro_ml_cd32_ppc.Base.Run.{value}
use monte_lauro_ml_cd32_ppc.Base.Exec.{ok}
use monte_lauro_ml_cd32_ppc.Memory
use monte_lauro_ml_cd32_ppc.Memory.Access.{IsValid}
use monte_lauro_ml_cd32_ppc.Interrupt
use monte_lauro_ml_cd32_ppc.Bus
use monte_lauro_ml_cd32_ppc.Bus.{Bus}
use monte_lauro_ml_cd32_ppc.Bus.Access
use monte_lauro_ml_cd32_ppc.Base.Arms.{select}
use monte_lauro_ml_cd32_ppc.Bus.Interface.{BusInterface, bus_interface}
use monte_lauro_ml_cd32_ppc.Bus.Ram.{ram_stack}
use monte_lauro_ml_cd32_ppc.ColdFire.{Core, flags, get_cc_cond}
use monte_lauro_ml_cd32_ppc.ColdFire.Flow.{take_interrupt, op_rte, op_jsr, op_rts}
use monte_lauro_ml_cd32_ppc.ColdFire.Stack.{masked, take_interrupt-rte, op_jsr-rts}
use monte_lauro_ml_cd32_ppc.ColdFire.Frames.{StackMemory, Reaches, SameRegs}
use monte_lauro_ml_cd32_ppc.ColdFire.{op_ill}
use monte_lauro_ml_cd32_ppc.ColdFire.Moves.{op_lea}
use monte_lauro_ml_cd32_ppc.ColdFire.Arith.{op_cmp, cmp_overflow}
use monte_lauro_ml_cd32_ppc.ColdFire.Division.{op_div}
use monte_lauro_ml_cd32_ppc.ColdFire.Logic.{op_asr, op_lsr}
use monte_lauro_ml_cd32_ppc.ColdFire.Dispatch.{step, accepted, fetch, dispatch, arms_4}
use monte_lauro_ml_cd32_ppc.ColdFire.Masking.{step-serves}
use monte_lauro_ml_cd32_ppc.ColdFire.Conditions.{with_sr, op_cmp-conditions, conditions_complement}
use monte_lauro_ml_cd32_ppc.ColdFire.Reached.{dispatch-first_arms, dispatch-shifts}
use monte_lauro_ml_cd32_ppc.ColdFire.Results.{op_div-unsigned}

instance abbrev machine_bus : BusInterface
machine_bus = bus_interface false

-- RAM with JSR (A0) at 0x1000, BSR at 0x1002, and the address 0x2000 for the vector 0x6C
abbrev program : ℕ → ℕ
program i =
    if i == 0x1000
    then 0x4E
    else if i == 0x1001
    then 0x90
    else if i == 0x1002
    then 0x61
    else if i == 0x1003
    then 0x10
    else if i == 0x1B2
    then 0x20
    else 0

abbrev bios : Bytes
bios = record { len = 0; cell = λ i. 0 }

abbrev bus_at : Bus
bus_at =
    let b = Bus.new bios in
    record b { mem = record b.mem { unified = record b.mem.unified { cell = program } } }

abbrev core_at : ℕ → Core
core_at pc = (
  record {
    regs = record {
      d = λ i. i;
      a = λ i. if i == 7 then 0x8000 else 0x3000 + i;
      pc = pc;
      sr = 0x2204;
    };
    halt = false;
    trace = false;
  },
  bus_at,
)

bus_at-IsValid : IsValid bus_at.mem
unfolding Bus.new Memory.new
bus_at-IsValid = record { unified_len = refl; local_len = refl; rom_len = refl }

abbrev stack : StackMemory (bus_interface false) 0x4000 0x8000
stack = ram_stack false 0x4000 0x8000 (omega arith, inl (omega arith))

vector_read : Access.read_word bus_at (0x6C * 4) ≡ some 0x2000
unfolding Access.read_word Access.read_word_in Memory.region Memory.read_word
    Memory.slice_and_offset Memory.slice_and_offset_in Bus.new Memory.new
vector_read = refl

take_interrupt-rte_example : Reaches (take_interrupt 3 0x6C (core_at 0x1002)) (λ t.
    (t.0.regs.pc ≡ 0x2000)
    × (t.0.regs.sr ≡ masked 3 0x2204)
    × Reaches (op_rte t) (SameRegs (core_at 0x1002)))
take_interrupt-rte_example =
    take_interrupt-rte 0x4000 0x8000 stack 3 0x6C 0x2000 (core_at 0x1002) (omega arith)
      (omega arith) (omega arith) (omega arith) (omega arith) (omega arith) bus_at-IsValid
      vector_read

jsr_read : Access.read_half bus_at 0x1000 ≡ some 0x4E90
unfolding Access.read_half Access.read_half_in Memory.region Memory.read_half
    Memory.slice_and_offset Memory.slice_and_offset_in Bus.new Memory.new
jsr_read = refl

bsr_read : Access.read_half bus_at 0x1002 ≡ some 0x6110
unfolding Access.read_half Access.read_half_in Memory.region Memory.read_half
    Memory.slice_and_offset Memory.slice_and_offset_in Bus.new Memory.new
bsr_read = refl

op_jsr-rts_example :
    Reaches
      (op_jsr (core_at 0x1002))
      (λ t. (t.0.regs.pc ≡ 0x3000) × Reaches (op_rts t) (SameRegs (core_at 0x1002)))
op_jsr-rts_example =
    op_jsr-rts 0x4000 0x8000 stack 0x4E90 (core_at 0x1002) (omega arith) (omega arith) (omega arith)
      (omega arith) bus_at-IsValid jsr_read refl (omega arith)

-- the core with a timer's interrupt pending
abbrev core_due : Core
core_due =
    let s = core_at 0x1002 in
    (
      s.0,
      record s.1 {
        intc = record {
          lines = λ i. i == 3;
          pending_ppc = false;
          pending_cf_level = 3;
          pending_cf_vector = 0x6C;
        };
      },
    )

due_read : Access.read_word core_due.1 (0x6C * 4) ≡ some 0x2000
unfolding Access.read_word Access.read_word_in Memory.region Memory.read_word
    Memory.slice_and_offset Memory.slice_and_offset_in Bus.new Memory.new
due_read = refl

timer_due : Access.cf_irq_pending core_due.1 ≡ some (3, 0x6C)
unfolding Access.cf_irq_pending Interrupt.cf_irq_pending
timer_due = refl

step-serves_example : Reaches (step core_due) (λ t.
    (t.0.regs.pc ≡ 0x2000)
    × ((u : Core) (l v : ℕ)
        → u.0.regs.sr ≡ t.0.regs.sr
        → l ≤ 3
        → (accepted u.0.regs (some (l, v)) ≡ none)
          × (u.0.halt ≡ false → machine_bus.cf_irq_pending u.1 ≡ some (l, v) → step u ≡ fetch u)))
step-serves_example =
    step-serves 0x4000 0x8000 stack 3 0x6C 0x2000 core_due (omega arith) (omega arith) (omega arith)
      (omega arith) (omega arith) (omega arith) bus_at-IsValid due_read refl timer_due (omega arith)
      (omega arith)

op_cmp-conditions_example :
    let f = flags (sub32 1 2) 4 (ltb 1 2) (cmp_overflow 1 2 (sub32 1 2)) 0x2204 in
    (op_cmp 0xB282 (core_at 0x1002) ≡ value (with_sr f (core_at 0x1002), ok 1))
    × (get_cc_cond 0x7 f ≡ (1 == 2))
    × (get_cc_cond 0x5 f ≡ ltb 1 2)
    × (get_cc_cond 0x3 f ≡ leb 1 2)
    × (get_cc_cond 0xD f ≡ ltb_ℤ (signed 32 1) (signed 32 2))
op_cmp-conditions_example =
    op_cmp-conditions 0xB282 (core_at 0x1002) refl (omega arith) (omega arith)

conditions_complement_example : get_cc_cond 0x7 0x2204 ≡ not (get_cc_cond 0x6 0x2204)
conditions_complement_example = conditions_complement 3 0x2204 (omega arith)

dispatch-first_arms_example :
    dispatch 0x48D0
    ≡ (if bits 6 3 0x48D0 == 7 then op_lea 0x48D0 else select 0x48 arms_4 op_ill 0x48D0)
dispatch-first_arms_example = dispatch-first_arms 0x48D0 refl

dispatch-shifts_example : dispatch 0xE288 ≡ (if leb 0xE2 0xE7 then op_asr 0xE288 else op_lsr 0xE288)
dispatch-shifts_example = dispatch-shifts 0xE288 refl

op_div-unsigned_example : Reaches (op_div 0x8EC2 (core_at 0x1002)) (λ t.
    let x = t.0.regs.d 7 in
    let divisor = 2 % 2 ^ 16 in (x % 2 ^ 16 * divisor + x / 2 ^ 16 ≡ 7) × (x / 2 ^ 16 < divisor))
op_div-unsigned_example =
    op_div-unsigned 0x8EC2 (core_at 0x1002) refl refl (omega arith) (omega arith)

-- the core with 0x10000 in A0
abbrev core_aligned : Core
core_aligned =
    let s = core_at 0x1002 in (record s.0 { regs = record s.0.regs { a = λ i. 0x1_0000 } }, s.1)

extension_read : Access.read_word bus_at 0x1000 ≡ some 0x4E90_6110
unfolding Access.read_word Access.read_word_in Memory.region Memory.read_word
    Memory.slice_and_offset Memory.slice_and_offset_in Bus.new Memory.new
extension_read = refl
