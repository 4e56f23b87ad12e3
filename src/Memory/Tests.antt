-- ===== src/Memory/Tests.antt =====
-- Runs of the memory map, and its theorems at concrete accesses.
use monte_lauro_ml_cd32_ppc.Base.{ℕ, ◌*◌, ◌<◌, ◌≤◌, some, ◌≡◌, ◌≢◌, ◌⊎◌, refl, arith}
use monte_lauro_ml_cd32_ppc.Memory
use monte_lauro_ml_cd32_ppc.Memory.{
  MemoryMap, new, region, match_range, mailbox, unified_ram, reserved, read_word, read_byte,
  write_word, zeroed, put_cells, word_bytes, slice_and_offset_mut, slice_and_offset_mut_in,
  unified_offset, vram,
}
use monte_lauro_ml_cd32_ppc.Memory.Regions.{region-ne-alias}
use monte_lauro_ml_cd32_ppc.Memory.Access.{IsValid}
use monte_lauro_ml_cd32_ppc.Memory.Frame.{read_word-write_word, write_word_frame}

abbrev blank : MemoryMap
blank = record {
  unified = zeroed (28 * 1024 * 1024);
  local_mem = zeroed (2 * 1024 * 1024);
  rom = zeroed (512 * 1024);
}

blank-IsValid : IsValid blank
blank-IsValid = ground arith

-- the map after `write_word(0x0000_1000, 0xDEAD_BEEF)`
abbrev written : MemoryMap
written = record blank { unified = put_cells (blank.unified) 0x1000 (word_bytes 0xDEAD_BEEF) }

written_lem : write_word 0x1000 0xDEAD_BEEF blank ≡ some written
unfolding write_word slice_and_offset_mut slice_and_offset_mut_in unified_offset region
written_lem = refl

regions :
    (region 0x0100_0000 ≡ mailbox)
    × (region 0x0100_000F ≡ mailbox)
    × (region 0x0100_0010 ≡ unified_ram)
    × (region 0x01C0_0000 ≡ reserved)
unfolding region
regions = (refl, refl, refl, refl)

read_word-write_word_example : read_word written 0x1000 ≡ some 0xDEAD_BEEF
read_word-write_word_example =
    read_word-write_word 0x1000 0xDEAD_BEEF blank written blank-IsValid (omega arith) written_lem

write_word_frame_example :
    ((b : ℕ) → (b < 0x1000) ⊎ (0x1004 ≤ b) → read_byte written b ≡ read_byte blank b)
    × (written.rom ≡ blank.rom)
    × IsValid written
write_word_frame_example =
    write_word_frame 0x1000 0xDEAD_BEEF blank written blank-IsValid written_lem

region-ne-alias_example :
    (region 0x01B0_0000 ≢ vram)
    × (region 0x01B0_0000 ≢ Memory.system_ram)
    × (region 0x01B0_0000 ≢ Memory.chip_ram)
region-ne-alias_example = region-ne-alias 0x01B0_0000
