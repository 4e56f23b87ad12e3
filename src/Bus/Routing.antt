-- ===== src/Bus/Routing.antt =====
-- Where an access goes: wait states, refused writes, and the visible framebuffer.
use monte_lauro_ml_cd32_ppc.Base.{ℕ, ◌*◌, ◌≤◌, ◌<◌, Bool, false, none, ◌≡◌, refl, arith}
use monte_lauro_ml_cd32_ppc.Base.Run.{value}
use monte_lauro_ml_cd32_ppc.Memory.{
  region, MemRegion, unified_ram, system_ram, chip_ram, cold_fire_local, cold_fire_io, cdrom_regs,
  gpu_regs, audio_dsp, dma_regs, vram, boot_rom, miu_regs, mailbox, dvd_expansion, reserved,
  vram_view,
}
use monte_lauro_ml_cd32_ppc.Memory.Regions.{
  region-ne-alias, region-unified_ram, region-cold_fire_local, region-boot_rom, InUnified, InLocal,
  InRom,
}
use monte_lauro_ml_cd32_ppc.Bus.{Bus, framebuffer_rgba}
use monte_lauro_ml_cd32_ppc.Bus.Access.{
  access_cycles, access_cycles_in, write_byte, write_byte_in, write_half, write_half_in, write_word,
  write_word_in,
}

-- No access waits for more than one cycle, and an access of the PPC to the unified RAM, the video
-- memory at its end included, for none: the three cycles for the video memory are never charged.
access_cycles-le_one :
    (addr : ℕ) (is_coldfire : Bool)
    → (access_cycles addr is_coldfire ≤ 1) × (InUnified addr → access_cycles addr false ≡ 0)
unfolding access_cycles
access_cycles-le_one addr cf = (
  go (region addr) refl,
  λ i. rw ((region-unified_ram addr).1 i) (unfold access_cycles_in in refl),
)
  where
    go : (r : MemRegion) → region addr ≡ r → access_cycles_in r cf ≤ 1
    go vram e = absurd ((region-ne-alias addr).0 e)
    go unified_ram e = unfold access_cycles_in in ground arith
    go system_ram e = unfold access_cycles_in in ground arith
    go chip_ram e = unfold access_cycles_in in ground arith
    go cold_fire_local e = unfold access_cycles_in in omega arith
    go cold_fire_io e = unfold access_cycles_in in omega arith
    go cdrom_regs e = unfold access_cycles_in in omega arith
    go gpu_regs e = unfold access_cycles_in in omega arith
    go audio_dsp e = unfold access_cycles_in in omega arith
    go dma_regs e = unfold access_cycles_in in omega arith
    go boot_rom e = unfold access_cycles_in in omega arith
    go miu_regs e = unfold access_cycles_in in omega arith
    go mailbox e = unfold access_cycles_in in omega arith
    go dvd_expansion e = unfold access_cycles_in in omega arith
    go reserved e = unfold access_cycles_in in omega arith

-- Writes of every width to the boot ROM are refused, and, unless the build allows them, word
-- writes to the ColdFire's memory too, where byte and half writes always are.
protected_writes :
    (addr val : ℕ) (b : Bus)
    → (InRom addr
        → (write_byte addr val b ≡ value none)
          × (write_half addr val b ≡ value none)
          × ((allow : Bool) → write_word allow addr val b ≡ value none))
      × (InLocal addr
          → (write_byte addr val b ≡ value none)
            × (write_half addr val b ≡ value none)
            × (write_word false addr val b ≡ value none))
unfolding write_byte write_byte_in write_half write_half_in write_word write_word_in
protected_writes addr val b = (
  λ i. rw ((region-boot_rom addr).1 i) (refl, refl, λ allow. refl),
  λ i. rw ((region-cold_fire_local addr).1 i) (refl, refl, refl),
)

-- The framebuffer that the host shows is always shorter than the 640 by 480 pixels of four bytes
-- of the screen, wherever it begins.
framebuffer_rgba-short : (b : Bus) → (framebuffer_rgba b).len < 640 * 480 * 4
unfolding framebuffer_rgba vram_view
framebuffer_rgba-short b = ground arith
