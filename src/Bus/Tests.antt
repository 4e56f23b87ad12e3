-- ===== src/Bus/Tests.antt =====
-- The theorems of the bus at concrete accesses.
use monte_lauro_ml_cd32_ppc.Base.{◌≢◌, Bytes}
use monte_lauro_ml_cd32_ppc.Base.Run.{out_of_fuel}
use monte_lauro_ml_cd32_ppc.Cdrom
use monte_lauro_ml_cd32_ppc.Gpu
use monte_lauro_ml_cd32_ppc.Gpu.{vertical_blank}
use monte_lauro_ml_cd32_ppc.Bus.{Bus, new, tick}
use monte_lauro_ml_cd32_ppc.Bus.Ticks.{tick-ends}

abbrev bios : Bytes
bios = record { len = 0; cell = λ i. 0 }

tick-ends_example : tick 11 (new bios) ≢ out_of_fuel
tick-ends_example = tick-ends 11 (new bios)

abbrev blanking : Bus
blanking = record (new bios) { gpu = record (Gpu.new) { state = vertical_blank } }
