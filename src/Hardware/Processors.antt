-- ===== src/Hardware/Processors.antt =====
-- The two processors of src/cpu in their places in the machine of src/hardware.rs.
use monte_lauro_ml_cd32_ppc.Base.{Bool, true, false}
use monte_lauro_ml_cd32_ppc.Base.Run.{Run, map_run, map_run-ends}
use monte_lauro_ml_cd32_ppc.Base.Exec.{Exit, ok, fault}
use monte_lauro_ml_cd32_ppc.Bus.{Bus}
use monte_lauro_ml_cd32_ppc.Bus.Interface.{bus_interface}
use monte_lauro_ml_cd32_ppc.Bus.Ends.{bus_interface-WritesEnd}
use monte_lauro_ml_cd32_ppc.ColdFire.{ColdFire, new, reset}
use monte_lauro_ml_cd32_ppc.ColdFire.Dispatch.{step}
use monte_lauro_ml_cd32_ppc.ColdFire.Ends.Dispatch.{Ends-step}
use monte_lauro_ml_cd32_ppc.Ppc
use monte_lauro_ml_cd32_ppc.Ppc.{Ppu}
use monte_lauro_ml_cd32_ppc.Ppc.Dispatch as PpcDispatch
use monte_lauro_ml_cd32_ppc.Ppc.Ends as PpcEnds
use monte_lauro_ml_cd32_ppc.Hardware.{Cpu}
use monte_lauro_ml_cd32_ppc.Hardware.Turns.{Stops}

-- what `run_cycles` keeps of a `Result`: whether it is an `Err`
abbrev failed : {E A : Type 0} → Exit E A → Bool
failed (ok a) = false
failed (fault e) = true

unfoldable pub coldfire_step : Bool → ColdFire → Bus → Run (ColdFire × Bus × Bool)
coldfire_step allow s b =
    map_run (λ r. (r.0.0, r.0.1, failed r.1)) (step ⦃bus = bus_interface allow⦄ (s, b))

unfoldable pub ppc_step : Bool → Ppu → Bus → Run (Ppu × Bus × Bool)
ppc_step allow s b =
    map_run (λ r. (r.0.0, r.0.1, failed r.1)) (PpcDispatch.step ⦃bus = bus_interface allow⦄ (s, b))

-- The ColdFire on the bus of a build with or without `allow_cf_local_write`.
abbrev pub coldfire_cpu : Bool → Cpu
coldfire_cpu allow = record {
  State = ColdFire;
  fresh = new;
  halted = λ s. s.halt;
  set_halted = λ h s. record s { halt = h };
  restart = reset;
  step = coldfire_step allow;
}

pub coldfire-Stops : (allow : Bool) → Stops (coldfire_cpu allow)
unfolding coldfire_step
coldfire-Stops allow s b =
    map_run-ends _ _
      ((Ends-step ⦃bus = bus_interface allow⦄ (bus_interface-WritesEnd allow)).at (s, b))

abbrev pub ppc_cpu : Bool → Cpu
ppc_cpu allow = record {
  State = Ppu;
  fresh = Ppc.new;
  halted = λ s. s.halt;
  set_halted = λ h s. record s { halt = h };
  restart = Ppc.reset;
  step = ppc_step allow;
}

pub ppc-Stops : (allow : Bool) → Stops (ppc_cpu allow)
unfolding ppc_step
ppc-Stops allow s b =
    map_run-ends _ _
      ((PpcEnds.Ends-step ⦃bus = bus_interface allow⦄ (bus_interface-WritesEnd allow)).at (s, b))
