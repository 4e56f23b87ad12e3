-- ===== src/Dma/Priority.antt =====
-- The channels of one tick: independent of one another, and served in the fixed order.
use monte_lauro_ml_cd32_ppc.Base.{◌++◌, ◌≡◌, refl, append-nil}
use monte_lauro_ml_cd32_ppc.Dma.{
  DmaChannelId, cdrom, gpu, audio, cold_fire, index, DmaController, tick_channel, tick, tick_order,
}

-- A tick advances each channel as if it were alone, and its transfers are those of the CD-ROM,
-- the GPU, the audio and the ColdFire channel, in this order; the controller's own registers
-- stay.
tick_independent :
    (c : DmaController)
    → ((id : DmaChannelId)
        → (tick c).0.channels (index id) ≡ (tick_channel id (c.channels (index id))).0)
      × ((tick c).1
          ≡ (tick_channel cdrom (c.channels 0)).1
            ++ ((tick_channel gpu (c.channels 1)).1
                ++ ((tick_channel audio (c.channels 2)).1
                    ++ (tick_channel cold_fire (c.channels 3)).1)))
      × ((tick c).0.regs ≡ c.regs)
unfolding tick tick_order
tick_independent c = (each, simp append-nil, refl)
  where
    each :
        (id : DmaChannelId)
        → (tick c).0.channels (index id) ≡ (tick_channel id (c.channels (index id))).0
    each cdrom = refl
    each gpu = refl
    each audio = refl
    each cold_fire = refl
