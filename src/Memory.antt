-- ===== src/Memory.antt =====
-- src/memory.rs: the address map and the three memories behind it. A `Vec<u8>` is a `Bytes`; a
-- write returns the new map under the `Option` of the source.
pub mod Regions
pub mod Access
pub mod Frame
pub mod Words
mod Tests
use monte_lauro_ml_cd32_ppc.Base.{
  ℕ, zero, suc, ◌+◌, ◌-◌, ◌*◌, ◌/◌, ◌%◌, ◌^◌, min, Bool, true, false, Option, none, some, List, [],
  ◌∷◌, if◌then◌else◌, ltb, leb, ◌==◌, ◌&&◌, update, Bytes, get_elem?, be16, be32, byte_of, ◌>>=◌,
  write_cells, map_option,
}

abbrev unified_ram_base : ℕ
unified_ram_base = 0x0000_0000

abbrev unified_ram_size : ℕ
unified_ram_size = 28 * 1024 * 1024

abbrev mailbox_base : ℕ
mailbox_base = 0x0100_0000

abbrev mailbox_end : ℕ
mailbox_end = 0x0100_000F

abbrev coldfire_local_size : ℕ
coldfire_local_size = 2 * 1024 * 1024

abbrev vram_base : ℕ
vram_base = 0x01B0_0000

abbrev boot_rom_size : ℕ
boot_rom_size = 512 * 1024

abbrev default_stack : ℕ
default_stack = 0x01BF_0000

pub data MemRegion : Type 0 where
  unified_ram system_ram chip_ram cold_fire_local cold_fire_io cdrom_regs gpu_regs : MemRegion
  audio_dsp dma_regs vram boot_rom miu_regs mailbox dvd_expansion reserved : MemRegion

pub record MemoryMap : Type 0 where
  pub unified : Bytes  -- `unified_ram`
  pub local_mem : Bytes  -- `coldfire_local`
  pub rom : Bytes  -- `boot_rom`

-- `vec![0u8; n]`
abbrev zeroed : ℕ → Bytes
zeroed n = record { len = n; cell = λ i. 0 }

unfoldable pub new : Bytes → MemoryMap
new bios = record {
  unified = zeroed unified_ram_size;
  local_mem = zeroed coldfire_local_size;
  rom =
      let copy_len = min bios.len boot_rom_size in
      record { len = boot_rom_size; cell = λ i. if ltb i copy_len then bios.cell i else 0 };
}

-- `(lo..=hi).contains(&a)`
abbrev in_range : ℕ → ℕ → ℕ → Bool
in_range lo hi a = leb lo a && leb a hi

-- an arm `lo..=hi => region` of a `match`
record Range : Type 0 where
  pub lo : ℕ
  pub hi : ℕ
  pub target : MemRegion

abbrev region_table : List Range
region_table =
    record { lo = 0x0000_0000; hi = 0x01BF_FFFF; target = unified_ram }
    ∷ record { lo = 0x01C0_0000; hi = 0x01FF_FFFF; target = reserved }
    ∷ record { lo = 0x0200_0000; hi = 0x021F_FFFF; target = cold_fire_local }
    ∷ record { lo = 0x0220_0000; hi = 0x0220_003F; target = cold_fire_io }
    ∷ record { lo = 0x0220_0040; hi = 0x02FF_FFFF; target = reserved }
    ∷ record { lo = 0x0300_0000; hi = 0x030F_FFFF; target = cdrom_regs }
    ∷ record { lo = 0x03D0_0000; hi = 0x03DF_FFFF; target = audio_dsp }
    ∷ record { lo = 0x03E0_0000; hi = 0x03EF_FFFF; target = dma_regs }
    ∷ record { lo = 0x0400_0000; hi = 0x0400_FFFF; target = gpu_regs }
    ∷ record { lo = 0x0500_0000; hi = 0x0500_000F; target = miu_regs }
    ∷ record { lo = 0x0800_0000; hi = 0x0800_FFFF; target = dvd_expansion }
    ∷ record { lo = 0xFF00_0000; hi = 0xFF07_FFFF; target = boot_rom }
    ∷ []

-- The first arm whose range holds the address; `_ => Reserved` otherwise.
unfoldable match_range : List Range → ℕ → MemRegion
match_range [] addr = reserved
match_range (r ∷ rs) addr = if in_range r.lo r.hi addr then r.target else match_range rs addr

-- `MemRegion::region`: the overlay of the mailbox first, then the table.
unfoldable pub region : ℕ → MemRegion
unfolding match_range
region addr =
    if in_range mailbox_base mailbox_end addr then mailbox else match_range region_table addr

unfoldable unified_offset : ℕ → Option ℕ
unified_offset addr = if ltb addr unified_ram_size then some addr else none

-- `addr & (SIZE - 1)`, for the two sizes that are powers of two
abbrev local_offset : ℕ → ℕ
local_offset addr = addr % coldfire_local_size

abbrev rom_offset : ℕ → ℕ
rom_offset addr = addr % boot_rom_size

-- The `match self.region(addr)` of `read_byte`, by the region.
unfoldable pub read_byte_in : MemRegion → MemoryMap → ℕ → Option ℕ
unfolding unified_offset
read_byte_in unified_ram m addr = unified_offset addr >>= λ off. get_elem? m.unified off
read_byte_in system_ram m addr = unified_offset addr >>= λ off. get_elem? m.unified off
read_byte_in chip_ram m addr = unified_offset addr >>= λ off. get_elem? m.unified off
read_byte_in cold_fire_local m addr = get_elem? m.local_mem (local_offset addr)
read_byte_in boot_rom m addr = get_elem? m.rom (rom_offset addr)
read_byte_in _ m addr = none

unfoldable pub read_byte : MemoryMap → ℕ → Option ℕ
read_byte m addr = read_byte_in (region addr) m addr

unfoldable pub slice_and_offset_in : MemRegion → MemoryMap → ℕ → Option (Bytes × ℕ)
unfolding unified_offset
slice_and_offset_in unified_ram m addr = unified_offset addr >>= λ off. some (m.unified, off)
slice_and_offset_in system_ram m addr = unified_offset addr >>= λ off. some (m.unified, off)
slice_and_offset_in chip_ram m addr = unified_offset addr >>= λ off. some (m.unified, off)
slice_and_offset_in cold_fire_local m addr = some (m.local_mem, local_offset addr)
slice_and_offset_in boot_rom m addr = some (m.rom, rom_offset addr)
slice_and_offset_in _ m addr = none

unfoldable pub slice_and_offset : MemoryMap → ℕ → Option (Bytes × ℕ)
slice_and_offset m addr = slice_and_offset_in (region addr) m addr

-- `slice.get(off..off + 2)` and the decoding of what it gives
abbrev pub get_half : Bytes → ℕ → Option ℕ
get_half b off = if leb (off + 2) b.len then some (be16 (b.cell off) (b.cell (off + 1))) else none

abbrev pub get_word : Bytes → ℕ → Option ℕ
get_word b off =
    if leb (off + 4) b.len
    then some (be32 (b.cell off) (b.cell (off + 1)) (b.cell (off + 2)) (b.cell (off + 3)))
    else none

unfoldable pub read_half : MemoryMap → ℕ → Option ℕ
read_half m addr = slice_and_offset m addr >>= λ s. get_half s.0 s.1

unfoldable pub read_word : MemoryMap → ℕ → Option ℕ
read_word m addr = slice_and_offset m addr >>= λ s. get_word s.0 s.1

-- Which memory a mutable slice borrows.
pub data Store : Type 0 where
  unified_store local_store : Store

abbrev pub store_of : Store → MemoryMap → Bytes
store_of unified_store m = m.unified
store_of local_store m = m.local_mem

abbrev pub put_store : Store → Bytes → MemoryMap → MemoryMap
put_store unified_store b m = record m { unified = b }
put_store local_store b m = record m { local_mem = b }

abbrev pub put_cells : Bytes → ℕ → List ℕ → Bytes
put_cells b off vs = record b { cell = write_cells b.cell off vs }

unfoldable pub slice_and_offset_mut_in : MemRegion → ℕ → Option (Store × ℕ)
unfolding unified_offset
slice_and_offset_mut_in unified_ram addr = unified_offset addr >>= λ off. some (unified_store, off)
slice_and_offset_mut_in system_ram addr = unified_offset addr >>= λ off. some (unified_store, off)
slice_and_offset_mut_in chip_ram addr = unified_offset addr >>= λ off. some (unified_store, off)
slice_and_offset_mut_in cold_fire_local addr = some (local_store, local_offset addr)
slice_and_offset_mut_in _ addr = none

unfoldable pub slice_and_offset_mut : ℕ → Option (Store × ℕ)
slice_and_offset_mut addr = slice_and_offset_mut_in (region addr) addr

-- `slice.get_mut(off..off + n)?.copy_from_slice(..)`
abbrev copy_into : MemoryMap → Store → ℕ → ℕ → List ℕ → Option MemoryMap
copy_into m s off n vs =
    if leb (off + n) (store_of s m).len
    then some (put_store s (put_cells (store_of s m) off vs) m)
    else none

-- The assignments `self.unified_ram[off] = val` are in range for every map that `new` makes.
unfoldable pub write_byte_in : MemRegion → ℕ → ℕ → MemoryMap → Option MemoryMap
unfolding unified_offset
write_byte_in unified_ram addr val m =
    unified_offset addr >>= λ off. some (record m { unified = put_cells m.unified off (val ∷ []) })
write_byte_in system_ram addr val m =
    unified_offset addr >>= λ off. some (record m { unified = put_cells m.unified off (val ∷ []) })
write_byte_in chip_ram addr val m =
    unified_offset addr >>= λ off. some (record m { unified = put_cells m.unified off (val ∷ []) })
write_byte_in cold_fire_local addr val m =
    some (record m { local_mem = put_cells m.local_mem (local_offset addr) (val ∷ []) })
write_byte_in _ addr val m = none

unfoldable pub write_byte : ℕ → ℕ → MemoryMap → Option MemoryMap
write_byte addr val m = write_byte_in (region addr) addr val m

-- `to_be_bytes`
abbrev pub half_bytes : ℕ → List ℕ
half_bytes v = byte_of 1 v ∷ byte_of 0 v ∷ []

abbrev pub word_bytes : ℕ → List ℕ
word_bytes v = byte_of 3 v ∷ byte_of 2 v ∷ byte_of 1 v ∷ byte_of 0 v ∷ []

unfoldable pub write_half : ℕ → ℕ → MemoryMap → Option MemoryMap
write_half addr val m = slice_and_offset_mut addr >>= λ s. copy_into m s.0 s.1 2 (half_bytes val)

unfoldable pub write_word : ℕ → ℕ → MemoryMap → Option MemoryMap
write_word addr val m = slice_and_offset_mut addr >>= λ s. copy_into m s.0 s.1 4 (word_bytes val)

-- `vram()`: the offset and the length of the subslice of the unified RAM.
abbrev vram_start : ℕ
vram_start = vram_base - unified_ram_base

abbrev vram_end : ℕ
vram_end = min unified_ram_size (vram_start + 0x10_0000)

unfoldable pub vram_view : MemoryMap → Bytes
vram_view m = record { len = vram_end - vram_start; cell = λ i. m.unified.cell (vram_start + i) }

-- What becomes of the RAM when the slice of `vram_mut` has been filled with `v`.
unfoldable pub put_vram : Bytes → MemoryMap → MemoryMap
put_vram v m = record m {
  unified = record (m.unified) {
    cell = λ i.
        if leb vram_start i && ltb i vram_end then v.cell (i - vram_start) else m.unified.cell i;
  };
}
