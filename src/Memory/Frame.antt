-- ===== src/Memory/Frame.antt =====
-- Word accesses: what is written is read back, nothing else changes, and when they succeed.
use monte_lauro_ml_cd32_ppc.Base.{
  ℕ, ◌+◌, ◌^◌, ◌≤◌, ◌<◌, none, some, ◌≡◌, ◌≢◌, ◌⊎◌, ◌↔◌, arith, inl, inr, Bytes, sym, be32, byte_of,
  ◌∙◌, write_cells, Option-cases,
}
use monte_lauro_ml_cd32_ppc.Memory.{
  MemoryMap, read_byte, read_word, write_word, Store, unified_store, local_store, local_offset,
  put_cells, put_store, store_of, word_bytes, get_word,
}
use monte_lauro_ml_cd32_ppc.Memory.Regions.{InUnified, InLocal}
use monte_lauro_ml_cd32_ppc.Memory.Access.{
  IsValid, Place, in_unified, in_local, in_rom, outside, place, slice-unified, slice-local,
  byte-unified, byte-local, byte-rom, mut-unified, mut-local, mut-rom, nothing_outside,
}

-- the map after a word has gone to the unified RAM, or to the ColdFire's memory
abbrev stored : Store → ℕ → ℕ → MemoryMap → MemoryMap
stored s off val m = put_store s (put_cells (store_of s m) off (word_bytes val)) m

-- The two ways in which a word is written.
data Wrote (addr val : ℕ) (m m' : MemoryMap) : Type 0 where
  to_unified :
      InUnified addr
      → addr + 4 ≤ 0x01C0_0000
      → m' ≡ stored unified_store addr val m
      → Wrote addr val m m'
  to_local :
      InLocal addr
      → addr + 4 ≤ 0x0220_0000
      → m' ≡ stored local_store (local_offset addr) val m
      → Wrote addr val m m'

write_word-Wrote :
    (addr val : ℕ) (m m' : MemoryMap)
    → IsValid m
    → write_word addr val m ≡ some m'
    → Wrote addr val m m'
unfolding write_word
write_word-Wrote addr val m m' v h = go (place addr)
  where
    go : Place addr → Wrote addr val m m'
    go (in_unified i e) = let e = mut-unified addr i in to_unified i (ground arith) (ground arith)
    go (in_local i e) = let e = mut-local addr i in to_local i (ground arith) (ground arith)
    go (in_rom i e) = let e = mut-rom addr i in absurd (ground arith)
    go (outside p q r) = let e = (nothing_outside m addr p q r).2 in absurd (ground arith)

pub be32-word_bytes :
    (v : ℕ) → v < 2 ^ 32 → be32 (byte_of 3 v) (byte_of 2 v) (byte_of 1 v) (byte_of 0 v) ≡ v
be32-word_bytes v h = omega arith

-- the four cells that a word goes to, and the others
pub cells_of_word :
    (f : ℕ → ℕ) (off v : ℕ)
    → let g = write_cells f off (word_bytes v) in
      (g off ≡ byte_of 3 v)
      × (g (off + 1) ≡ byte_of 2 v)
      × (g (off + 2) ≡ byte_of 1 v)
      × (g (off + 3) ≡ byte_of 0 v)
unfolding write_cells
cells_of_word f off v = (ground arith, ground arith, ground arith, ground arith)

cells_elsewhere :
    (f : ℕ → ℕ) (off v i : ℕ) → (i < off) ⊎ (off + 4 ≤ i) → write_cells f off (word_bytes v) i ≡ f i
unfolding write_cells
cells_elsewhere f off v i h = ground arith

get_word-put_cells :
    (b : Bytes) (off v : ℕ)
    → off + 4 ≤ b.len
    → v < 2 ^ 32
    → get_word (put_cells b off (word_bytes v)) off ≡ some v
get_word-put_cells b off v h hv = ground (arith, cells_of_word b.cell off v, be32-word_bytes v hv)

-- In a map whose memories have their sizes, a word below 2 ^ 32 that `write_word` has written at
-- an address is what `read_word` gives there.
pub read_word-write_word :
    (addr val : ℕ) (m m' : MemoryMap)
    → IsValid m
    → val < 2 ^ 32
    → write_word addr val m ≡ some m'
    → read_word m' addr ≡ some val
unfolding read_word
read_word-write_word addr val m m' v hv h = go (write_word-Wrote addr val m m' v h)
  where
    go : Wrote addr val m m' → read_word m' addr ≡ some val
    go (to_unified i fits e) =
        rw (slice-unified m' addr i, e) (get_word-put_cells m.unified addr val (ground arith) hv)
    go (to_local i fits e) =
        rw (slice-local m' addr i, e)
          (get_word-put_cells m.local_mem (local_offset addr) val (ground arith) hv)

-- After a successful `write_word` to a map whose memories have their sizes, every byte outside
-- of the four that were written reads as before, in whichever memory it lies, the boot ROM is
-- the same, and the sizes of the memories are kept.
pub write_word_frame :
    (addr val : ℕ) (m m' : MemoryMap)
    → IsValid m
    → write_word addr val m ≡ some m'
    → ((b : ℕ) → (b < addr) ⊎ (addr + 4 ≤ b) → read_byte m' b ≡ read_byte m b)
      × (m'.rom ≡ m.rom)
      × IsValid m'
write_word_frame addr val m m' v h = go (write_word-Wrote addr val m m' v h)
  where
    go_byte :
        (b : ℕ)
        → Place b
        → (b < addr) ⊎ (addr + 4 ≤ b)
        → Wrote addr val m m'
        → read_byte m' b ≡ read_byte m b
    go_byte b (in_unified i r) far (to_unified j fits e) =
        rw (byte-unified m' b i, byte-unified m b i, e)
          (ground (arith, cells_elsewhere m.unified.cell addr val b far))
    go_byte b (in_unified i r) far (to_local j fits e) =
        rw (byte-unified m' b i, byte-unified m b i, e)
    go_byte b (in_local i r) far (to_unified j fits e) = rw (byte-local m' b i, byte-local m b i, e)
    go_byte b (in_local i r) far (to_local j fits e) =
        rw (byte-local m' b i, byte-local m b i, e)
          (ground (
            arith,
            cells_elsewhere m.local_mem.cell (local_offset addr) val (local_offset b)
                (ground arith),
          ))
    go_byte b (in_rom i r) far (to_unified j fits e) = rw (byte-rom m' b i, byte-rom m b i, e)
    go_byte b (in_rom i r) far (to_local j fits e) = rw (byte-rom m' b i, byte-rom m b i, e)
    go_byte b (outside p q r) far w =
        (nothing_outside m' b p q r).0 ∙ sym (nothing_outside m b p q r).0

    go :
        Wrote addr val m m'
        → ((b : ℕ) → (b < addr) ⊎ (addr + 4 ≤ b) → read_byte m' b ≡ read_byte m b)
          × (m'.rom ≡ m.rom)
          × IsValid m'
    go (to_unified j fits e) = (
      λ b far. go_byte b (place b) far (to_unified j fits e),
      rw e,
      rw e (record { unified_len = v.unified_len; local_len = v.local_len; rom_len = v.rom_len }),
    )
    go (to_local j fits e) = (
      λ b far. go_byte b (place b) far (to_local j fits e),
      rw e,
      rw e (record { unified_len = v.unified_len; local_len = v.local_len; rom_len = v.rom_len }),
    )

-- In a map whose memories have their sizes, `write_word` succeeds exactly on an address of the
-- unified RAM outside of the mailbox, or of the ColdFire's memory, whose four bytes end inside
-- that memory.
write_word_succeeds :
    (addr val : ℕ) (m : MemoryMap)
    → IsValid m
    → (write_word addr val m ≢ none)
      ↔ ((InUnified addr × (addr + 4 ≤ 0x01C0_0000)) ⊎ (InLocal addr × (addr + 4 ≤ 0x0220_0000)))
unfolding write_word
write_word_succeeds addr val m v = (λ h. wrote h (Option-cases (write_word addr val m)), fits)
  where
    Fits : Type 0
    Fits = (InUnified addr × (addr + 4 ≤ 0x01C0_0000)) ⊎ (InLocal addr × (addr + 4 ≤ 0x0220_0000))

    of_Wrote : (m' : MemoryMap) → Wrote addr val m m' → Fits
    of_Wrote m' (to_unified i f e) = inl (i, f)
    of_Wrote m' (to_local i f e) = inr (i, f)

    wrote :
        write_word addr val m ≢ none
        → (write_word addr val m ≡ none) ⊎ ((m' : MemoryMap) × (write_word addr val m ≡ some m'))
        → Fits
    wrote h (inl e) = absurd (h e)
    wrote h (inr (m', e)) = of_Wrote m' (write_word-Wrote addr val m m' v e)

    fits : Fits → write_word addr val m ≢ none
    fits (inl (i, f)) n = let e = mut-unified addr i in ground arith
    fits (inr (i, f)) n = let e = mut-local addr i in ground arith
