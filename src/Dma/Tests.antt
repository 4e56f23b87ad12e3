-- ===== src/Dma/Tests.antt =====
-- Runs of the DMA controller, and its theorems at concrete channels.
use monte_lauro_ml_cd32_ppc.Base.{ℕ, true, [], ◌∷◌, ◌++◌, ◌≡◌, refl, arith, if◌then◌else◌, ◌==◌}
use monte_lauro_ml_cd32_ppc.Dma
use monte_lauro_ml_cd32_ppc.Dma.Stall.{IsRagged, no_done, ragged_never_done}
use monte_lauro_ml_cd32_ppc.Dma.{
  cdrom, gpu, audio, cold_fire, index, DmaChannelId, DmaTransfer, copy, done, DmaController,
  DmaChannel, idle, bursting, finished, new_channel, new, tick, tick_channel, tick_order, write_reg,
  read_reg, write_channel,
}
use monte_lauro_ml_cd32_ppc.Dma.Channel.{IsValid, copies, tick_channel-IsValid}
use monte_lauro_ml_cd32_ppc.Dma.Drain.{drain}
use monte_lauro_ml_cd32_ppc.Dma.Registers.{start_then_drain}

abbrev armed : ℕ → DmaChannel
armed size = record {
  src_addr = 0x1000;
  dst_addr = 0x2000;
  transfer_size = size;
  burst_size = 64;
  ctrl = 0;
  status = 0;
  state = idle;
  bytes_this_burst = 0;
}

abbrev running : ℕ → DmaChannel
running size = record (armed size) { state = bursting; status = 1 }

start_then_drain_example :
    ((drain 4 gpu (write_channel 0x0C 1 (armed 72))).1
      ≡ copies gpu 0x1000 0x2000 18 ++ (done gpu ∷ []))
    × ((drain 4 gpu (write_channel 0x0C 1 (armed 72))).0.state ≡ finished)
    × ((drain 4 gpu (write_channel 0x0C 1 (armed 72))).0.transfer_size ≡ 0)
start_then_drain_example =
    start_then_drain 1 2 1 gpu (armed 72) (omega arith) (omega arith) (omega arith) (omega arith)
      (omega arith) (omega arith) (omega arith) (omega arith) refl refl

abbrev busy : DmaController
busy = record { channels = λ i. running 8; regs = λ i. i }

two_channels :
    (tick (record busy {
      channels = λ i. if i == 0 then running 4 else if i == 3 then running 4 else armed 4;
    })).1
    ≡ copy cdrom 0x1000 0x2000 4 ∷ copy cold_fire 0x1000 0x2000 4 ∷ []
unfolding tick tick_order tick_channel Dma.copy_words Dma.advance
two_channels = refl

tick_channel-IsValid_example : IsValid (tick_channel gpu (running 70)).0
tick_channel-IsValid_example =
    tick_channel-IsValid gpu (running 70) (omega arith) (omega arith) (omega arith)

running-IsRagged : IsRagged (running 70)
running-IsRagged = record {
  valid = omega arith;
  runs = refl;
  odd_size = omega arith;
  src_word = omega arith;
  dst_word = omega arith;
}

ragged_never_done_example :
    ((drain 1000 gpu (running 70)).0.state ≡ bursting)
    × (no_done (drain 1000 gpu (running 70)).1 ≡ true)
ragged_never_done_example = ragged_never_done 1000 gpu (running 70) running-IsRagged
