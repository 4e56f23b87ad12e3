-- ===== src/Audio/Registers.antt =====
-- The registers of the DSP: what is written is read back, and register 0 switches the channels.
use monte_lauro_ml_cd32_ppc.Base.{
  ℕ, zero, suc, ◌+◌, ◌%◌, ◌^◌, ◌<◌, some, if◌then◌else◌, ◌==◌, ltb, leb, ◌&&◌, ◌≡◌, ◌≢◌, sym, ◌∙◌,
  arith, update, test_bit, Bool-cases, inl, inr, ==→eq, subst,
}
use monte_lauro_ml_cd32_ppc.Audio.{
  AudioChannel, AudioSubsystem, enable_from, write_word, write_byte, write_half, read_word,
  read_byte, read_half, reg_index,
}

enable_from_lem :
    (n c val : ℕ) (chs : ℕ → AudioChannel) (i : ℕ)
    → enable_from n c val chs i
      ≡ (if leb c i && ltb i (c + n) then record (chs i) { enabled = test_bit i val } else chs i)
unfolding enable_from
enable_from_lem zero c val chs i = ground arith
enable_from_lem (suc n) c val chs i =
    enable_from_lem n (c + 1) val (update chs c (record (chs c) { enabled = test_bit c val })) i
    ∙ elim (Bool-cases (i == c)) [
      | inl e ↦
          subst
            (λ k.
              (if leb (c + 1) k && ltb k (c + 1 + n)
                then record (update chs c (record (chs c) { enabled = test_bit c val }) k) {
                  enabled = test_bit k val;
                }
                else update chs c (record (chs c) { enabled = test_bit c val }) k)
              ≡ (if leb c k && ltb k (c + suc n)
                  then record (chs k) { enabled = test_bit k val }
                  else chs k))
            (sym (==→eq i c e)) (ground arith)
      | inr e ↦ rw e (ground arith)
    ]

-- A word that is written to register 0, at a multiple of 256, switches each of the eight
-- channels by its bit of the word and changes nothing else of them, and the word is read back.
write_word-enables :
    (addr val : ℕ) (a : AudioSubsystem) (i : ℕ)
    → addr % 256 ≡ 0
    → i < 8
    → ((write_word addr val a).channels i ≡ record (a.channels i) { enabled = test_bit i val })
      × (read_word (write_word addr val a) addr ≡ some val)
unfolding write_word read_word
write_word-enables addr val a i h l =
    (ground (arith, enable_from_lem 8 0 val a.channels i), ground arith)

-- At a multiple of four, a byte, half or word that is written is read back, if it fits in 8 and
-- 16 bits in the first two cases, and a word that is written leaves the registers of other
-- indices.
written_is_read :
    (addr val : ℕ) (a : AudioSubsystem)
    → addr % 4 ≡ 0
    → (val < 256 → read_byte (write_byte addr val a) addr ≡ val)
      × (val < 2 ^ 16 → read_half (write_half addr val a) addr ≡ val)
      × (read_word (write_word addr val a) addr ≡ some val)
      × ((j : ℕ) → j ≢ reg_index addr → (write_word addr val a).dsp_regs j ≡ a.dsp_regs j)
unfolding write_word read_word write_byte read_byte write_half read_half
written_is_read addr val a h =
    (λ l. ground arith, λ l. ground arith, ground arith, λ j ne. ground arith)
