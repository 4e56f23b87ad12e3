-- ===== src/Bus/Ram.antt =====
-- src/bus.rs: the unified RAM behind the bus, as memory for the stack of the ColdFire.
use monte_lauro_ml_cd32_ppc.Base.{
  ℕ, suc, ◌+◌, ◌^◌, ◌≤◌, ◌<◌, Bool, true, List, [], ◌∷◌, some, ◌≡◌, refl, ap, ap₂, ◌∙◌, sym, arith,
  ◌⊎◌, inl, be16, be32, byte_of, write_cells, update, Bytes, le→leb,
}
use monte_lauro_ml_cd32_ppc.Base.Run.{value}
use monte_lauro_ml_cd32_ppc.Memory
use monte_lauro_ml_cd32_ppc.Memory.{
  MemoryMap, unified_store, store_of, put_store, put_cells, half_bytes, word_bytes, get_half,
  get_word,
}
use monte_lauro_ml_cd32_ppc.Memory.Regions.{InUnified, region-unified_ram}
use monte_lauro_ml_cd32_ppc.Memory.Access.{IsValid, slice-unified, mut-unified}
use monte_lauro_ml_cd32_ppc.Memory.Frame.{be32-word_bytes, cells_of_word}
use monte_lauro_ml_cd32_ppc.Bus.{Bus}
use monte_lauro_ml_cd32_ppc.Bus.Access.{
  read_half, read_half_in, read_word, read_word_in, write_half, write_half_in, write_word,
  write_word_in,
}
use monte_lauro_ml_cd32_ppc.Bus.Interface.{bus_interface}
use monte_lauro_ml_cd32_ppc.ColdFire.Frames.{HalfWritten, WordWritten, StackMemory}

-- the bus after a write to the RAM
abbrev put : ℕ → List ℕ → Bus → Bus
put a vs b = record b { mem = put_store unified_store (put_cells b.mem.unified a vs) b.mem }

module _ (b : Bus) (v : IsValid b.mem) (x : ℕ) (h : InUnified x) (allow : Bool) where
  fits : (n : ℕ) → x + n ≤ 0x01C0_0000 → x + n ≤ b.mem.unified.len
  fits n k = rw v.unified_len k

  half-ram : read_half b x ≡ get_half b.mem.unified x
  unfolding read_half read_half_in Memory.read_half
  half-ram = rw ((region-unified_ram x).1 h) (rw (slice-unified b.mem x h) refl)

  word-ram : read_word b x ≡ get_word b.mem.unified x
  unfolding read_word read_word_in Memory.read_word
  word-ram = rw ((region-unified_ram x).1 h) (rw (slice-unified b.mem x h) refl)

  put_half-ram :
      (val : ℕ) → x + 2 ≤ 0x01C0_0000 → write_half x val b ≡ value (some (put x (half_bytes val) b))
  unfolding write_half write_half_in Memory.write_half
  put_half-ram val k =
      rw ((region-unified_ram x).1 h)
        (rw (mut-unified x h) (rw (le→leb (x + 2) b.mem.unified.len (fits 2 k)) refl))

  put_word-ram :
      (val : ℕ)
      → x + 4 ≤ 0x01C0_0000
      → write_word allow x val b ≡ value (some (put x (word_bytes val) b))
  unfolding write_word write_word_in Memory.write_word
  put_word-ram val k =
      rw ((region-unified_ram x).1 h)
        (rw (mut-unified x h) (rw (le→leb (x + 4) b.mem.unified.len (fits 4 k)) refl))

cells_below : (f : ℕ → ℕ) (off i : ℕ) (vs : List ℕ) → i < off → write_cells f off vs i ≡ f i
unfolding write_cells
cells_below f off i [] h = refl
cells_below f off i (w ∷ vs) h =
    cells_below (update f off w) (off + 1) i vs (omega arith) ∙ ground arith

cells_of_half :
    (f : ℕ → ℕ) (off v : ℕ)
    → let g = write_cells f off (half_bytes v) in
      (g off ≡ byte_of 1 v) × (g (off + 1) ≡ byte_of 0 v)
unfolding write_cells
cells_of_half f off v = (ground arith, ground arith)

cells_above_word :
    (f : ℕ → ℕ) (off v i : ℕ) → off + 4 ≤ i → write_cells f off (word_bytes v) i ≡ f i
unfolding write_cells
cells_above_word f off v i h = ground arith

-- a read of what lies in the RAM
get_half-in :
    (b : Bytes) (x : ℕ) → x + 2 ≤ b.len → get_half b x ≡ some (be16 (b.cell x) (b.cell (x + 1)))
get_half-in b x h = rw (le→leb (x + 2) b.len h) refl

get_word-in :
    (b : Bytes) (x : ℕ)
    → x + 4 ≤ b.len
    → get_word b x ≡ some (be32 (b.cell x) (b.cell (x + 1)) (b.cell (x + 2)) (b.cell (x + 3)))
get_word-in b x h = rw (le→leb (x + 4) b.len h) refl

put-IsValid : (b : Bus) (a : ℕ) (vs : List ℕ) → IsValid b.mem → IsValid (put a vs b).mem
put-IsValid b a vs v = record {
  unified_len = v.unified_len;
  local_len = v.local_len;
  rom_len = v.rom_len;
}

-- the vectors, after a write above them
vectors-put :
    (b : Bus) (a : ℕ) (vs : List ℕ) (x : ℕ)
    → IsValid b.mem
    → 0x400 ≤ a
    → x + 4 ≤ 0x400
    → read_word (put a vs b) x ≡ read_word b x
vectors-put b a vs x v h k =
    word-ram (put a vs b) (put-IsValid b a vs v) x (inl (omega arith)) true
    ∙ get_word-below
    ∙ sym (word-ram b v x (inl (omega arith)) true)
  where
    get_word-below : get_word (put a vs b).mem.unified x ≡ get_word b.mem.unified x
    get_word-below = rw (cells_below b.mem.unified.cell a x vs (omega arith)) (
        rw (cells_below b.mem.unified.cell a (x + 1) vs (omega arith)) (
          rw (cells_below b.mem.unified.cell a (x + 2) vs (omega arith))
            (rw (cells_below b.mem.unified.cell a (x + 3) vs (omega arith)) refl)))

be16-half_bytes : (v : ℕ) → v < 2 ^ 16 → be16 (byte_of 1 v) (byte_of 0 v) ≡ v
be16-half_bytes v h = omega arith

-- the addresses from `lo` up to `hi`, which lie in the RAM and above the vectors
abbrev InRam : ℕ → ℕ → Type 0
InRam lo hi = (0x400 ≤ lo) × ((hi ≤ 0x0100_0000) ⊎ ((0x0100_0010 ≤ lo) × (hi ≤ 0x01C0_0000)))

module _ (allow : Bool) (lo hi : ℕ) (ram : InRam lo hi) where
  unified : (a n : ℕ) → lo ≤ a → a + suc n ≤ hi → InUnified a
  unified a n h k = ground (arith, ram)

  inside : (a n : ℕ) → lo ≤ a → a + n ≤ hi → a + n ≤ 0x01C0_0000
  inside a n h k = ground (arith, ram)

  pub half-HalfWritten :
      (a v : ℕ) (b : Bus)
      → lo ≤ a
      → a + 2 ≤ hi
      → v < 2 ^ 16
      → IsValid b.mem
      → HalfWritten (bus_interface allow) (λ b. IsValid b.mem) a v b
  half-HalfWritten a v b h k hv valid =
      let good = put-IsValid b a (half_bytes v) valid in
      let (c1, c0) = cells_of_half b.mem.unified.cell a v in
      record {
        after = put a (half_bytes v) b;
        wrote = put_half-ram b valid a (unified a 1 h k) allow v (inside a 2 h k);
        good = good;
        half =
            half-ram (put a (half_bytes v) b) good a (unified a 1 h k) true
            ∙ get_half-in (put a (half_bytes v) b).mem.unified a
                (rw valid.unified_len (inside a 2 h k))
            ∙ ap some (ap₂ be16 c1 c0 ∙ be16-half_bytes v hv);
        vectors = λ x. vectors-put b a (half_bytes v) x valid (omega (arith, ram, h));
      }

  pub word-WordWritten :
      (a v : ℕ) (b : Bus)
      → lo ≤ a
      → a + 4 ≤ hi
      → v < 2 ^ 32
      → IsValid b.mem
      → WordWritten (bus_interface allow) (λ b. IsValid b.mem) hi a v b
  word-WordWritten a v b h k hv valid =
      let after = put a (word_bytes v) b in
      let good = put-IsValid b a (word_bytes v) valid in
      let (c3, c2, c1, c0) = cells_of_word b.mem.unified.cell a v in
      record {
        after = after;
        wrote = put_word-ram b valid a (unified a 3 h k) allow v (inside a 4 h k);
        good = good;
        word =
            word-ram after good a (unified a 3 h k) true
            ∙ get_word-in after.mem.unified a (rw valid.unified_len (inside a 4 h k))
            ∙ ap some (rw c3 (rw c2 (rw c1 (rw c0 (be32-word_bytes v hv)))));
        above = λ x e f.
            half-ram after good x (unified x 1 (omega arith) f) true
            ∙ rw (cells_above_word b.mem.unified.cell a v x (omega arith))
                (rw (cells_above_word b.mem.unified.cell a v (x + 1) (omega arith)) refl)
            ∙ sym (half-ram b valid x (unified x 1 (omega arith) f) true);
        vectors = λ x. vectors-put b a (word_bytes v) x valid (omega (arith, ram, h));
      }

-- The RAM of the bus, between the two bounds.
abbrev pub ram_stack :
    (allow : Bool) (lo hi : ℕ) → InRam lo hi → StackMemory (bus_interface allow) lo hi
ram_stack allow lo hi ram = record {
  Good = λ b. IsValid b.mem;
  write_half = half-HalfWritten allow lo hi ram;
  write_word = word-WordWritten allow lo hi ram;
}
