-- ===== src/Hardware/Tests.antt =====
-- The theorems of the machine with its two processors.
use monte_lauro_ml_cd32_ppc.Base.{◌+◌, ◌≤◌, ◌≡◌, true, false, Bytes, arith, refl}
use monte_lauro_ml_cd32_ppc.Hardware.{run_cycles, new}
use monte_lauro_ml_cd32_ppc.Memory
use monte_lauro_ml_cd32_ppc.Memory.Access.{new-IsValid}
use monte_lauro_ml_cd32_ppc.Dma.{DmaChannel, gpu, idle, write_channel}
use monte_lauro_ml_cd32_ppc.Dma.Drain.{drain}
use monte_lauro_ml_cd32_ppc.Bus
use monte_lauro_ml_cd32_ppc.Bus.Access.{ppc_irq_pending}
use monte_lauro_ml_cd32_ppc.Hardware.{transfer_all}
use monte_lauro_ml_cd32_ppc.Hardware.Copies.{HoldsBytes, Moved}
use monte_lauro_ml_cd32_ppc.Hardware.Transfers.{dma_transfer}
use monte_lauro_ml_cd32_ppc.Hardware.Schedule.{schedule_ratio}
use monte_lauro_ml_cd32_ppc.Hardware.Processors.{coldfire_cpu, ppc_cpu, coldfire-Stops, ppc-Stops}
use monte_lauro_ml_cd32_ppc.Hardware.Turns.{Leads}

abbrev bios : Bytes
bios = record { len = 0; cell = λ i. 0 }

schedule_ratio_example :
    Leads
      (ppc_cpu false)
      (coldfire_cpu false)
      (λ h.
        (h.total_cycles ≡ 1000)
        × (h.cf_cycles ≡ 345)
        × (h.ppc_hold ≡ true → h.ppc_cycles ≡ 0)
        × (h.ppc_cycles + h.cf_cycles ≤ 1000))
      (run_cycles
        (ppc_cpu false)
        (coldfire_cpu false)
        1000
        (new (ppc_cpu false) (coldfire_cpu false) bios))
schedule_ratio_example =
    schedule_ratio (ppc_cpu false) (coldfire_cpu false) 1000 bios (ppc-Stops false)
      (coldfire-Stops false)

abbrev armed_channel : DmaChannel
armed_channel = record {
  src_addr = 0x1000;
  dst_addr = 0x2000;
  transfer_size = 72;
  burst_size = 64;
  ctrl = 0;
  status = 0;
  state = idle;
  bytes_this_burst = 0;
}

blank-HoldsBytes : HoldsBytes (Bus.new bios).mem
unfolding Bus.new Memory.new
blank-HoldsBytes = record { valid = new-IsValid bios; bytes = λ i. omega arith }

dma_transfer_example :
    let b' = transfer_all (drain 4 gpu (write_channel 0x0C 1 armed_channel)).1 (Bus.new bios) in
    Moved 72 0x1000 0x2000 (Bus.new bios).mem b'.mem × (ppc_irq_pending b' ≡ true)
dma_transfer_example =
    dma_transfer 1 2 1 gpu armed_channel (Bus.new bios) (omega arith) (omega arith) (omega arith)
      (omega arith) (omega arith) (omega arith) refl refl blank-HoldsBytes (omega arith)
      (omega arith) (omega arith)
