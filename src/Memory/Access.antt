-- ===== src/Memory/Access.antt =====
-- Which accesses succeed, and where they go.
use monte_lauro_ml_cd32_ppc.Base.{ℕ, none, some, ◌≡◌, ◌≢◌, refl, arith, Bytes, get_elem?}
use monte_lauro_ml_cd32_ppc.Memory.{
  MemRegion, unified_ram, system_ram, chip_ram, cold_fire_local, cold_fire_io, cdrom_regs, gpu_regs,
  audio_dsp, dma_regs, vram, boot_rom, miu_regs, mailbox, dvd_expansion, reserved, region,
  unified_offset, MemoryMap, slice_and_offset_mut, slice_and_offset, slice_and_offset_in,
  slice_and_offset_mut_in, read_byte, read_byte_in, unified_store, local_store, unified_ram_size,
  coldfire_local_size, boot_rom_size, local_offset, rom_offset, new,
}
use monte_lauro_ml_cd32_ppc.Memory.Regions.{
  InUnified, InLocal, InRom, region-unified_ram, region-cold_fire_local, region-boot_rom,
  region-ne-alias,
}

-- The sizes that `new` allocates.
pub record IsValid (m : MemoryMap) : Type 0 where
  pub unified_len : m.unified.len ≡ unified_ram_size
  pub local_len : m.local_mem.len ≡ coldfire_local_size
  pub rom_len : m.rom.len ≡ boot_rom_size

pub new-IsValid : (bios : Bytes) → IsValid (new bios)
unfolding new
new-IsValid bios = ground arith

-- Where an address leads, by its region.
pub data Place (a : ℕ) : Type 0 where
  in_unified : InUnified a → region a ≡ unified_ram → Place a
  in_local : InLocal a → region a ≡ cold_fire_local → Place a
  in_rom : InRom a → region a ≡ boot_rom → Place a
  outside : region a ≢ unified_ram → region a ≢ cold_fire_local → region a ≢ boot_rom → Place a

pub place : (a : ℕ) → Place a
place a = go (region a) refl
  where
    go : (r : MemRegion) → region a ≡ r → Place a
    go unified_ram e = in_unified ((region-unified_ram a).0 e) e
    go cold_fire_local e = in_local ((region-cold_fire_local a).0 e) e
    go boot_rom e = in_rom ((region-boot_rom a).0 e) e
    go system_ram e = absurd ((region-ne-alias a).1 e)
    go chip_ram e = absurd ((region-ne-alias a).2 e)
    go vram e = absurd ((region-ne-alias a).0 e)
    go cold_fire_io e = outside (λ f. cc) (λ f. cc) (λ f. cc)
    go cdrom_regs e = outside (λ f. cc) (λ f. cc) (λ f. cc)
    go gpu_regs e = outside (λ f. cc) (λ f. cc) (λ f. cc)
    go audio_dsp e = outside (λ f. cc) (λ f. cc) (λ f. cc)
    go dma_regs e = outside (λ f. cc) (λ f. cc) (λ f. cc)
    go miu_regs e = outside (λ f. cc) (λ f. cc) (λ f. cc)
    go mailbox e = outside (λ f. cc) (λ f. cc) (λ f. cc)
    go dvd_expansion e = outside (λ f. cc) (λ f. cc) (λ f. cc)
    go reserved e = outside (λ f. cc) (λ f. cc) (λ f. cc)

module _ (m : MemoryMap) (a : ℕ) where
  pub slice-unified : InUnified a → slice_and_offset m a ≡ some (m.unified, a)
  unfolding slice_and_offset slice_and_offset_in unified_offset
  slice-unified h = rw ((region-unified_ram a).1 h) (ground arith)

  pub slice-local : InLocal a → slice_and_offset m a ≡ some (m.local_mem, local_offset a)
  unfolding slice_and_offset slice_and_offset_in
  slice-local h = rw ((region-cold_fire_local a).1 h)

  pub slice-rom : InRom a → slice_and_offset m a ≡ some (m.rom, rom_offset a)
  unfolding slice_and_offset slice_and_offset_in
  slice-rom h = rw ((region-boot_rom a).1 h)

  pub byte-unified : InUnified a → read_byte m a ≡ get_elem? m.unified a
  unfolding read_byte read_byte_in unified_offset
  byte-unified h = rw ((region-unified_ram a).1 h) (ground arith)

  pub byte-local : InLocal a → read_byte m a ≡ get_elem? m.local_mem (local_offset a)
  unfolding read_byte read_byte_in
  byte-local h = rw ((region-cold_fire_local a).1 h)

  pub byte-rom : InRom a → read_byte m a ≡ get_elem? m.rom (rom_offset a)
  unfolding read_byte read_byte_in
  byte-rom h = rw ((region-boot_rom a).1 h)

module _ (a : ℕ) where
  pub mut-unified : InUnified a → slice_and_offset_mut a ≡ some (unified_store, a)
  unfolding slice_and_offset_mut slice_and_offset_mut_in unified_offset
  mut-unified h = rw ((region-unified_ram a).1 h) (ground arith)

  pub mut-local : InLocal a → slice_and_offset_mut a ≡ some (local_store, local_offset a)
  unfolding slice_and_offset_mut slice_and_offset_mut_in
  mut-local h = rw ((region-cold_fire_local a).1 h)

  pub mut-rom : InRom a → slice_and_offset_mut a ≡ none
  unfolding slice_and_offset_mut slice_and_offset_mut_in
  mut-rom h = rw ((region-boot_rom a).1 h)

-- Outside of the three memories nothing is read or written.
pub nothing_outside :
    (m : MemoryMap) (a : ℕ)
    → region a ≢ unified_ram
    → region a ≢ cold_fire_local
    → region a ≢ boot_rom
    → (read_byte m a ≡ none) × (slice_and_offset m a ≡ none) × (slice_and_offset_mut a ≡ none)
unfolding read_byte read_byte_in slice_and_offset slice_and_offset_in slice_and_offset_mut
    slice_and_offset_mut_in
nothing_outside m a h1 h2 h3 = go (region a) refl
  where
    go :
        (r : MemRegion)
        → region a ≡ r
        → (read_byte m a ≡ none) × (slice_and_offset m a ≡ none) × (slice_and_offset_mut a ≡ none)
    go unified_ram e = absurd (h1 e)
    go cold_fire_local e = absurd (h2 e)
    go boot_rom e = absurd (h3 e)
    go system_ram e = absurd ((region-ne-alias a).1 e)
    go chip_ram e = absurd ((region-ne-alias a).2 e)
    go vram e = absurd ((region-ne-alias a).0 e)
    go cold_fire_io e = rw e (refl, refl, refl)
    go cdrom_regs e = rw e (refl, refl, refl)
    go gpu_regs e = rw e (refl, refl, refl)
    go audio_dsp e = rw e (refl, refl, refl)
    go dma_regs e = rw e (refl, refl, refl)
    go miu_regs e = rw e (refl, refl, refl)
    go mailbox e = rw e (refl, refl, refl)
    go dvd_expansion e = rw e (refl, refl, refl)
    go reserved e = rw e (refl, refl, refl)
