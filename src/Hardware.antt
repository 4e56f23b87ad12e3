-- ===== src/Hardware.antt =====
-- src/hardware.rs: the machine, its scheduler and the transfers of the DMA. The two processors come
-- in through the interface `Cpu`.
pub mod Turns
pub mod Schedule
pub mod Copies
pub mod Transfers
pub mod Processors
mod Tests
use monte_lauro_ml_cd32_ppc.Base.{
  ℕ, zero, suc, ◌+◌, ◌-◌, ◌*◌, ◌/◌, ◌%◌, ◌^◌, Bool, true, false, not, Option, none, some, List, [],
  ◌∷◌, if◌then◌else◌, ltb, ◌==◌, ◌&&◌, Bytes, ◌≡◌,
}
use monte_lauro_ml_cd32_ppc.Base.Int.{ℤ, pos, negsuc, ◌+ℤ◌, ◌-ℤ◌, leb_ℤ}
use monte_lauro_ml_cd32_ppc.Base.Run.{Run, value, panic, out_of_fuel, ◌>>=◌}
use monte_lauro_ml_cd32_ppc.Memory
use monte_lauro_ml_cd32_ppc.Dma
use monte_lauro_ml_cd32_ppc.Dma.{DmaChannelId, DmaTransfer}
use monte_lauro_ml_cd32_ppc.Interrupt.{
  IrqSource, InterruptController, cdrom_data, dma_done, assert_irq,
}
use monte_lauro_ml_cd32_ppc.Bus
use monte_lauro_ml_cd32_ppc.Bus.{Bus}
use monte_lauro_ml_cd32_ppc.Bus.Access.{ppc_irq_pending, cf_irq_pending}

abbrev quantum : ℕ
quantum = 16

abbrev cf_per_ppc : ℕ
cf_per_ppc = 140

abbrev ppc_per_cf : ℕ
ppc_per_cf = 266

-- `(QUANTUM as f64 * 140.0 / 406.0) as u32`, which rounds down
abbrev ppc_in_quantum : ℕ
ppc_in_quantum = quantum * cf_per_ppc / (cf_per_ppc + ppc_per_cf)

abbrev cf_in_quantum : ℕ
cf_in_quantum = quantum - ppc_in_quantum

-- A processor: its state, its halt flag and a step against the bus. The flag of a step is an `Err`.
pub record Cpu : Type 1 where
  pub State : Type 0
  pub fresh : State
  pub halted : State → Bool
  pub set_halted : Bool → State → State
  pub restart : State → State  -- `reset`
  pub step : State → Bus → Run (State × Bus × Bool)

-- `serial_out` is only ever cleared.
pub record Cd32Hardware (P C : Type 0) : Type 0 where
  pub ppc : P
  pub coldfire : C
  pub bus : Bus
  pub total_cycles : ℕ
  pub ppc_cycles : ℕ
  pub cf_cycles : ℕ
  pub boot_complete : Bool
  pub serial_out : List ℕ
  pub cycle_acc : ℤ
  pub ppc_hold : Bool

abbrev is_some {ℓ} : {A : Type ℓ} → Option A → Bool
is_some none = false
is_some (some a) = true

-- What a processor does with its cycle: it wakes up if an interrupt is pending, and takes a step if
-- it is not halted; a step that fails halts it.
module _ (cpu : Cpu) where
  open cpu use {State, halted, set_halted, step}

  unfoldable wake : Bool → State → State
  wake irq s = if halted s && irq then set_halted false s else s

  abbrev after_step : State × Bus × Bool → State × Bus
  after_step r = if r.2 then (set_halted true r.0, r.1) else (r.0, r.1)

  unfoldable turn : Bool → State → Bus → Run (State × Bus)
  unfolding wake
  turn irq s b =
      let s' = wake irq s in
      let stepped = step s' b >>= λ r. value (after_step r) in
      if halted s' then value (s', b) else stepped

-- One transfer of the DMA: a word of memory, or the interrupt at the end.
unfoldable done_source : DmaChannelId → IrqSource
done_source Dma.cdrom = cdrom_data
done_source _ = dma_done

-- a write that the memory refuses leaves it as it was
abbrev or_same : Memory.MemoryMap → Option Memory.MemoryMap → Memory.MemoryMap
or_same m none = m
or_same m (some m') = m'

unfoldable copy_word : Option ℕ → ℕ → Memory.MemoryMap → Memory.MemoryMap
copy_word none dst m = m
copy_word (some val) dst m = or_same m (Memory.write_word dst val m)

unfoldable transfer : DmaTransfer → Bus → Bus
unfolding copy_word done_source
transfer (DmaTransfer.copy id src dst size) b = record b {
  mem = copy_word (Memory.read_word b.mem src) dst b.mem;
}
transfer (DmaTransfer.done id) b = record b { intc = assert_irq (done_source id) b.intc }

unfoldable transfer_all : List DmaTransfer → Bus → Bus
transfer_all [] b = b
transfer_all (t ∷ ts) b = transfer_all ts (transfer t b)

-- `self.bus.dma.tick()` and the loop over its transfers
unfoldable tick_dma : Bus → Bus
tick_dma b =
    let (dma', transfers) = Dma.tick b.dma in transfer_all transfers (record b { dma = dma' })

module _ (ppc_cpu cf_cpu : Cpu) where
  abbrev Machine : Type 0
  Machine = Cd32Hardware (ppc_cpu.State) (cf_cpu.State)

  unfoldable pub new : Bytes → Machine
  new bios = record {
    ppc = ppc_cpu.fresh;
    coldfire = cf_cpu.fresh;
    bus = Bus.new bios;
    total_cycles = 0;
    ppc_cycles = 0;
    cf_cycles = 0;
    boot_complete = false;
    serial_out = [];
    cycle_acc = pos 0;
    ppc_hold = true;
  }

  unfoldable reset : Machine → Machine
  reset h = record h {
    ppc = ppc_cpu.restart h.ppc;
    coldfire = cf_cpu.restart h.coldfire;
    boot_complete = false;
    serial_out = [];
  }

  -- the branch in which the ColdFire is behind
  unfoldable coldfire_turn : Machine → Run Machine
  coldfire_turn h = turn cf_cpu (is_some (cf_irq_pending h.bus)) h.coldfire h.bus >>= λ r.
      value (record h {
        coldfire = r.0;
        bus = r.1;
        cf_cycles = h.cf_cycles + 1;
        cycle_acc = h.cycle_acc -ℤ pos ppc_per_cf;
        ppc_hold = h.ppc_hold && not (cf_cpu.halted r.0);
      })

  -- the branch in which the PPC is behind and runs
  unfoldable ppc_turn : Machine → Run Machine
  ppc_turn h = turn ppc_cpu (ppc_irq_pending h.bus) h.ppc h.bus >>= λ r. value (record h {
    ppc = r.0;
    bus = r.1;
    ppc_cycles = h.ppc_cycles + 1;
    cycle_acc = h.cycle_acc +ℤ pos cf_per_ppc;
  })

  -- the branch in which it is held in reset
  unfoldable held_turn : Machine → Machine
  held_turn h = record h { cycle_acc = h.cycle_acc +ℤ pos cf_per_ppc }

  unfoldable one_turn : Machine → Run Machine
  one_turn h =
      if leb_ℤ (pos 0) h.cycle_acc
      then coldfire_turn h
      else if h.ppc_hold
      then value (held_turn h)
      else ppc_turn h

  -- The peripherals at the end of a quantum. `poll_serial` reads two bytes and drops them.
  unfoldable end_quantum : Machine → Run Machine
  end_quantum h = Bus.tick cf_in_quantum h.bus >>= λ b. value (record h {
    bus = tick_dma b;
    boot_complete =
        if cf_cpu.halted h.coldfire && (not h.boot_complete && not h.ppc_hold)
        then true
        else h.boot_complete;
  })

  -- a round of the loop of `run_cycles`
  unfoldable one_cycle : Machine → Run Machine
  one_cycle h = one_turn h >>= λ h1.
      let h2 = record h1 { total_cycles = h1.total_cycles + 1 } in
      if h2.total_cycles % quantum == 0 then end_quantum h2 else value h2

  -- Each round adds one to `total_cycles`, so the loop makes `cycles` rounds.
  unfoldable run_cycles : ℕ → Machine → Run Machine
  run_cycles zero h = value h
  run_cycles (suc n) h = one_cycle h >>= λ h'. run_cycles n h'

  unfoldable boot : Machine → Run Machine
  boot h = run_cycles 70_000 h >>= λ h1. run_cycles 1_330_000 h1 >>= λ h2. run_cycles 850_000_000 h2
