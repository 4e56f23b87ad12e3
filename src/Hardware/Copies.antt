-- ===== src/Hardware/Copies.antt =====
-- The word copies of a DMA transfer, as the machine carries them out: src/hardware.rs, the branch
-- `DmaTransfer::Copy` of the loop over `dma.tick()`.
use monte_lauro_ml_cd32_ppc.Base.{
  ℕ, zero, suc, ◌+◌, ◌-◌, ◌*◌, ◌<◌, ◌≤◌, ◌≡◌, ◌∙◌, ap, ap₂, u32, refl, arith, ◌⊎◌, inl, inr, be32,
  byte_of, write_cells, sym,
}
use monte_lauro_ml_cd32_ppc.Memory.{
  MemoryMap, read_byte, read_word, write_word, word_bytes, put_cells,
}
use monte_lauro_ml_cd32_ppc.Memory.Access.{IsValid, slice-unified, byte-unified, mut-unified}
use monte_lauro_ml_cd32_ppc.Memory.Frame.{cells_of_word, write_word_frame}
use monte_lauro_ml_cd32_ppc.Dma.{DmaChannelId}
use monte_lauro_ml_cd32_ppc.Dma.Channel.{copies}
use monte_lauro_ml_cd32_ppc.Bus.{Bus}
use monte_lauro_ml_cd32_ppc.Hardware.{copy_word, transfer, transfer_all}

-- the map after the word at `src` has been copied to `dst`, in the unified RAM
abbrev copied : ℕ → ℕ → MemoryMap → MemoryMap
copied src dst m =
    let f = m.unified.cell in
    record m {
      unified =
          put_cells m.unified dst
            (word_bytes (be32 (f src) (f (src + 1)) (f (src + 2)) (f (src + 3))));
    }

copy_word_lem :
    (src dst : ℕ) (m : MemoryMap)
    → IsValid m
    → src + 4 ≤ 0x0100_0000
    → dst + 4 ≤ 0x0100_0000
    → copy_word (read_word m src) dst m ≡ copied src dst m
unfolding copy_word read_word write_word
copy_word_lem src dst m v hs hd =
    let e1 = slice-unified m src (omega arith) in
    let e2 = mut-unified dst (omega arith) in ground (arith)

-- A map with its sizes, whose unified RAM holds bytes.
pub record HoldsBytes (m : MemoryMap) : Type 0 where
  pub valid : IsValid m
  pub bytes : (i : ℕ) → m.unified.cell i < 256

abbrev word_at : MemoryMap → ℕ → ℕ
word_at m src = let f = m.unified.cell in be32 (f src) (f (src + 1)) (f (src + 2)) (f (src + 3))

bytes_of_be32 :
    (a b c d : ℕ)
    → a < 256
    → b < 256
    → c < 256
    → d < 256
    → let w = be32 a b c d in
      (byte_of 3 w ≡ a) × (byte_of 2 w ≡ b) × (byte_of 1 w ≡ c) × (byte_of 0 w ≡ d)
bytes_of_be32 a b c d ha hb hc hd = (omega arith, omega arith, omega arith, omega arith)

-- What a copy of `n` bytes has done to a map: it has moved them, and nothing else.
pub record Moved (n src dst : ℕ) (m m' : MemoryMap) : Type 0 where
  pub holds : HoldsBytes m'
  pub there : (j : ℕ) → j < n → read_byte m' (dst + j) ≡ read_byte m (src + j)
  pub elsewhere : (a : ℕ) → (a < dst) ⊎ (dst + n ≤ a) → read_byte m' a ≡ read_byte m a
  pub rom_same : m'.rom ≡ m.rom

module _ (src dst : ℕ) (m : MemoryMap) (h : HoldsBytes m) where
  four_bytes :
      let w = word_at m src in
      (byte_of 3 w ≡ m.unified.cell src)
      × (byte_of 2 w ≡ m.unified.cell (src + 1))
      × (byte_of 1 w ≡ m.unified.cell (src + 2))
      × (byte_of 0 w ≡ m.unified.cell (src + 3))
  four_bytes =
      bytes_of_be32 (m.unified.cell src) (m.unified.cell (src + 1)) (m.unified.cell (src + 2))
        (m.unified.cell (src + 3)) (h.bytes src) (h.bytes (src + 1)) (h.bytes (src + 2))
        (h.bytes (src + 3))

  cells :
      let w = word_at m src in
      let g = (copied src dst m).unified.cell in
      (g dst ≡ byte_of 3 w)
      × (g (dst + 1) ≡ byte_of 2 w)
      × (g (dst + 2) ≡ byte_of 1 w)
      × (g (dst + 3) ≡ byte_of 0 w)
  cells = cells_of_word m.unified.cell dst (word_at m src)

  cell_there :
      (j : ℕ) → j < 4 → (copied src dst m).unified.cell (dst + j) ≡ m.unified.cell (src + j)
  cell_there zero lt =
      ap (λ k. (copied src dst m).unified.cell k) (omega arith)
      ∙ cells.0
      ∙ four_bytes.0
      ∙ ap m.unified.cell (omega arith)
  cell_there (suc zero) lt = cells.1 ∙ four_bytes.1
  cell_there (suc (suc zero)) lt = cells.2 ∙ four_bytes.2
  cell_there (suc (suc (suc zero))) lt = cells.3 ∙ four_bytes.3
  cell_there (suc (suc (suc (suc j)))) lt = absurd (omega arith)

  cell_byte : (i : ℕ) → (copied src dst m).unified.cell i < 256
  unfolding write_cells
  cell_byte i = let b = h.bytes i in ground arith

  copied-Moved :
      src + 4 ≤ 0x0100_0000 → dst + 4 ≤ 0x0100_0000 → Moved 4 src dst m (copied src dst m)
  copied-Moved hs hd =
      let frame = write_word_frame dst (word_at m src) m (copied src dst m) h.valid (
        unfold write_word in
        let e2 = mut-unified dst (omega arith) in let v = h.valid in ground arith) in
      record {
        holds = record { valid = frame.2; bytes = cell_byte };
        there = λ j lt.
            byte-unified (copied src dst m) (dst + j) (omega arith)
            ∙ (let e = cell_there j lt in let u = h.valid.unified_len in ground arith)
            ∙ sym (byte-unified m (src + j) (omega arith));
        elsewhere = frame.0;
        rom_same = refl;
      }

near_or_far : (j : ℕ) → (j < 4) ⊎ (4 ≤ j)
near_or_far j = ground arith

-- Two copies in a row, the second of what lies behind the first.
Moved-then :
    (n src dst : ℕ) (m m1 m2 : MemoryMap)
    → (src + suc n * 4 ≤ dst) ⊎ (dst + suc n * 4 ≤ src)
    → Moved 4 src dst m m1
    → Moved (n * 4) (src + 4) (dst + 4) m1 m2
    → Moved (suc n * 4) src dst m m2
Moved-then n src dst m m1 m2 apart p q = record {
  holds = q.holds;
  there = λ j lt. arrived j lt (near_or_far j);
  elsewhere = λ a h. q.elsewhere a (omega arith) ∙ p.elsewhere a (omega arith);
  rom_same = q.rom_same ∙ p.rom_same;
}
  where
    arrived :
        (j : ℕ) → j < suc n * 4 → (j < 4) ⊎ (4 ≤ j) → read_byte m2 (dst + j) ≡ read_byte m (src + j)
    arrived j lt (inl near) = q.elsewhere (dst + j) (omega arith) ∙ p.there j near
    arrived j lt (inr far) =
        ap (read_byte m2) (omega arith)
        ∙ q.there (j - 4) (omega arith)
        ∙ p.elsewhere (src + 4 + (j - 4)) (omega arith)
        ∙ ap (read_byte m) (omega arith)

-- The words of a transfer below the mailbox, whose source and destination lie apart, arrive.
pub transfer_all-copies :
    (n src dst : ℕ) (id : DmaChannelId) (b : Bus)
    → HoldsBytes b.mem
    → src + n * 4 ≤ 0x0100_0000
    → dst + n * 4 ≤ 0x0100_0000
    → (src + n * 4 ≤ dst) ⊎ (dst + n * 4 ≤ src)
    → (m' : MemoryMap) × (transfer_all (copies id src dst n) b ≡ record b { mem = m' })
      × Moved (n * 4) src dst b.mem m'
unfolding transfer_all transfer
transfer_all-copies zero src dst id b h hs hd apart = (
  b.mem,
  refl,
  record {
    holds = h;
    there = λ j lt. absurd (omega arith);
    elsewhere = λ a out. refl;
    rom_same = refl;
  },
)
transfer_all-copies (suc n) src dst id b h hs hd apart =
    let m1 = copied src dst b.mem in
    let b1 = record b { mem = m1 } in
    let moved = copied-Moved src dst b.mem h (omega arith) (omega arith) in
    let (m2, e, rest) =
      transfer_all-copies n (src + 4) (dst + 4) id b1 (moved.holds) (omega arith) (omega arith)
        (omega arith) in
    (
      m2,
      ap (λ x. transfer_all (copies id (u32 (src + 4)) (u32 (dst + 4)) n) (record b { mem = x }))
            (copy_word_lem src dst b.mem h.valid (omega arith) (omega arith))
          ∙ ap₂ (λ s d. transfer_all (copies id s d n) b1) (omega arith) (omega arith)
          ∙ e,
      Moved-then n src dst b.mem m1 m2 apart moved rest,
    )
