-- ===== src/Memory/Words.antt =====
-- A word that is read is made of the bytes that are read.
use monte_lauro_ml_cd32_ppc.Base.{
  ℕ, ◌+◌, ◌≤◌, Option, some, ◌≡◌, refl, arith, Bytes, be32, ◌∙◌, get_elem?, ◌>>=◌,
}
use monte_lauro_ml_cd32_ppc.Memory.{
  MemoryMap, read_byte, read_word, local_offset, rom_offset, get_word, region, coldfire_local_size,
  boot_rom_size,
}
use monte_lauro_ml_cd32_ppc.Memory.Regions.{
  InLocal, InRom, region-unified_ram, region-cold_fire_local, region-boot_rom,
}
use monte_lauro_ml_cd32_ppc.Memory.Access.{
  IsValid, Place, in_unified, in_local, in_rom, outside, place, slice-unified, slice-local,
  slice-rom, byte-unified, byte-local, byte-rom, nothing_outside,
}

-- The four bytes of a word, read one by one at these offsets.
abbrev bytes_at : Bytes → ℕ → ℕ → ℕ → ℕ → Option ℕ
bytes_at m i j k l = get_elem? m i >>= λ a.
    get_elem? m j >>= λ b. get_elem? m k >>= λ c. get_elem? m l >>= λ d. some (be32 a b c d)

word_of_bytes :
    (b : Bytes) (off i j k : ℕ)
    → off + 4 ≤ b.len
    → i ≡ off + 1
    → j ≡ off + 2
    → k ≡ off + 3
    → get_word b off ≡ bytes_at b off i j k
word_of_bytes b off i j k h p q r = rw (p, q, r) (ground arith)

local_word :
    (b : Bytes) (a : ℕ)
    → b.len ≡ coldfire_local_size
    → InLocal a
    → InLocal (a + 3)
    → get_word b (local_offset a)
      ≡ bytes_at b
          (local_offset a)
          (local_offset (a + 1))
          (local_offset (a + 2))
          (local_offset (a + 3))
local_word b a h i j =
    word_of_bytes b (local_offset a) _ _ _ (omega arith) (omega arith) (omega arith) (omega arith)

rom_word :
    (b : Bytes) (a : ℕ)
    → b.len ≡ boot_rom_size
    → InRom a
    → InRom (a + 3)
    → get_word b (rom_offset a)
      ≡ bytes_at b (rom_offset a) (rom_offset (a + 1)) (rom_offset (a + 2)) (rom_offset (a + 3))
rom_word b a h i j =
    word_of_bytes b (rom_offset a) _ _ _ (omega arith) (omega arith) (omega arith) (omega arith)

-- In a map whose memories have their sizes, and where the first and the last byte of a word lie
-- in one region, `read_word` gives the big-endian value of the four bytes that `read_byte`
-- gives, and nothing where they give nothing.
read_word-of-bytes :
    (addr : ℕ) (m : MemoryMap)
    → IsValid m
    → region (addr + 3) ≡ region addr
    → read_word m addr ≡ (
        read_byte m addr >>= λ a. read_byte m (addr + 1) >>= λ b.
        read_byte m (addr + 2) >>= λ c. read_byte m (addr + 3) >>= λ d. some (be32 a b c d))
unfolding read_word
read_word-of-bytes addr m v same = go (place addr)
  where
    go :
        Place addr
        → read_word m addr ≡ (
            read_byte m addr >>= λ a. read_byte m (addr + 1) >>= λ b.
            read_byte m (addr + 2) >>= λ c. read_byte m (addr + 3) >>= λ d. some (be32 a b c d))
    go (in_unified i e) =
        let j = (region-unified_ram (addr + 3)).0 (same ∙ e) in
        rw
          (
            slice-unified m addr i,
            byte-unified m addr i,
            byte-unified m (addr + 1) (ground arith),
            byte-unified m (addr + 2) (ground arith),
            byte-unified m (addr + 3) j,
          )
          (word_of_bytes m.unified addr _ _ _ (ground arith) refl refl refl)
    go (in_local i e) =
        let j = (region-cold_fire_local (addr + 3)).0 (same ∙ e) in
        rw
          (
            slice-local m addr i,
            byte-local m addr i,
            byte-local m (addr + 1) (omega arith),
            byte-local m (addr + 2) (omega arith),
            byte-local m (addr + 3) j,
          )
          (local_word m.local_mem addr v.local_len i j)
    go (in_rom i e) =
        let j = (region-boot_rom (addr + 3)).0 (same ∙ e) in
        rw
          (
            slice-rom m addr i,
            byte-rom m addr i,
            byte-rom m (addr + 1) (omega arith),
            byte-rom m (addr + 2) (omega arith),
            byte-rom m (addr + 3) j,
          )
          (rom_word m.rom addr v.rom_len i j)
    go (outside p q r) = let n = nothing_outside m addr p q r in rw (n.0, n.1)
