-- ===== src/Bus/Interface.antt =====
-- src/bus.rs, the trait `BusInterface`: what a processor may ask of the bus, and the bus as an
-- implementation of it.
use monte_lauro_ml_cd32_ppc.Base.{ℕ, Bool, Option, ◌≢◌}
use monte_lauro_ml_cd32_ppc.Base.Run.{Run, out_of_fuel}
use monte_lauro_ml_cd32_ppc.Bus.{Bus}
use monte_lauro_ml_cd32_ppc.Bus.Access

-- A write that the bus refuses gives `none` and leaves the bus as it was.
pub record BusInterface : Type 1 where
  pub State : Type 0
  pub read_byte : State → ℕ → Option ℕ
  pub read_half : State → ℕ → Option ℕ
  pub read_word : State → ℕ → Option ℕ
  pub write_byte : ℕ → ℕ → State → Run (Option State)
  pub write_half : ℕ → ℕ → State → Run (Option State)
  pub write_word : ℕ → ℕ → State → Run (Option State)
  pub access_cycles : ℕ → Bool → ℕ
  pub ppc_irq_pending : State → Bool
  pub cf_irq_pending : State → Option (ℕ × ℕ)

-- No write of the bus runs for ever.
pub record WritesEnd (bus : BusInterface) : Type 0 where
  pub byte : (addr val : ℕ) (b : bus.State) → bus.write_byte addr val b ≢ out_of_fuel
  pub half : (addr val : ℕ) (b : bus.State) → bus.write_half addr val b ≢ out_of_fuel
  pub word : (addr val : ℕ) (b : bus.State) → bus.write_word addr val b ≢ out_of_fuel

-- `impl BusInterface for Bus`, in a build with or without `allow_cf_local_write`
abbrev pub bus_interface : Bool → BusInterface
bus_interface allow = record {
  State = Bus;
  read_byte = Access.read_byte;
  read_half = Access.read_half;
  read_word = Access.read_word;
  write_byte = Access.write_byte;
  write_half = Access.write_half;
  write_word = Access.write_word allow;
  access_cycles = Access.access_cycles;
  ppc_irq_pending = Access.ppc_irq_pending;
  cf_irq_pending = Access.cf_irq_pending;
}
