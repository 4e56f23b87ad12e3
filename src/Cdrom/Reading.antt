-- ===== src/Cdrom/Reading.antt =====
-- A read command against the disc: what the ticks after it do to the buffer and the registers.
use monte_lauro_ml_cd32_ppc.Base.{
  ℕ, zero, suc, ◌+◌, ◌*◌, ◌<◌, true, false, none, some, List, if◌then◌else◌, Bytes, slice, ◌≡◌,
  refl, ap, ap₂, ◌∙◌, arith, lt→ltb, test_bit, ◌>>=◌,
}
use monte_lauro_ml_cd32_ppc.Cdrom.{
  CdromDrive, ready, reading, paused, sector_of, read_sector, tick, tick_in, tick_read, read_fault,
}

abbrev pub ticks : ℕ → CdromDrive → CdromDrive
ticks zero d = d
ticks (suc n) d = ticks n (tick d)

-- the bytes of `n` sectors from sector `lba` on
abbrev pub sectors : Bytes → ℕ → ℕ → List ℕ
sectors disc lba n = slice disc.cell (lba * 2048) (n * 2048)

-- A drive that is reading from a disc, with `n` sectors to come from `lba` on and `got` buffered.
record IsReading (disc : Bytes) (lba n : ℕ) (got : List ℕ) (d : CdromDrive) : Type 0 where
  pub reads : d.state ≡ reading
  pub has_disc : d.virtual_disc ≡ some disc
  pub at_lba : d.lba ≡ lba
  pub left : d.sectors_remaining ≡ n
  pub buffered : d.data_buffer ≡ got
  pub no_error : test_bit 3 (d.regs 0x04) ≡ false

-- the end of a read
pub record IsDone (got : List ℕ) (lba : ℕ) (d : CdromDrive) : Type 0 where
  pub is_ready : d.state ≡ ready
  pub at_end : d.lba ≡ lba
  pub lba_register : d.regs 0x08 ≡ lba
  pub left_register : d.regs 0x0C ≡ 0
  pub none_left : d.sectors_remaining ≡ 0
  pub has_all : d.data_buffer ≡ got
  pub data_ready : test_bit 2 (d.regs 0x04) ≡ true
  pub no_error : test_bit 3 (d.regs 0x04) ≡ false

sector_of-outside :
    (disc : Bytes) (lba : ℕ) → disc.len < (lba + 1) * 2048 → sector_of disc lba ≡ none
unfolding sector_of
sector_of-outside disc lba h = rw (lt→ltb disc.len (lba * 2048 + 2048) (omega arith))

tick-reading :
    (disc : Bytes) (lba n : ℕ) (got : List ℕ) (d : CdromDrive)
    → IsReading disc lba (suc n) got d
    → tick d ≡ tick_read (sector_of disc lba) d
unfolding tick tick_in
tick-reading disc lba n got d r =
    ap (λ s. tick_in s d) r.reads
    ∙ ap (λ b. if b then tick_read (read_sector d d.lba) d else record d { state = ready })
        (lt→ltb 0 d.sectors_remaining (omega (arith, r.left)))
    ∙ ap (λ o. tick_read o d) (there r.has_disc r.at_lba)
  where
    there : d.virtual_disc ≡ some disc → d.lba ≡ lba → read_sector d d.lba ≡ sector_of disc lba
    there e f = unfold read_sector in ap₂ (λ v l. v >>= λ c. sector_of c l) e f

paused_stays : (k : ℕ) (d : CdromDrive) → d.state ≡ paused → ticks k d ≡ d
unfolding tick tick_in
paused_stays zero d h = refl
paused_stays (suc k) d h = ap (ticks k) (ap (λ s. tick_in s d) h) ∙ paused_stays k d h

-- A read that reaches a sector which the disc does not hold stops there: the drive is paused, the
-- error bit is set, and it keeps the sectors that it had and the number of those to come.
read_past_end :
    (n : ℕ) (disc : Bytes) (lba : ℕ) (got : List ℕ) (d : CdromDrive)
    → IsReading disc lba (suc n) got d
    → disc.len < (lba + 1) * 2048
    → ((tick d).state ≡ paused)
      × (test_bit 3 ((tick d).regs 0x04) ≡ true)
      × ((tick d).data_buffer ≡ got)
      × ((tick d).sectors_remaining ≡ suc n)
      × ((k : ℕ) → ticks k (tick d) ≡ tick d)
unfolding tick_read read_fault
read_past_end n disc lba got d r h =
    rw (tick-reading disc lba n got d r, sector_of-outside disc lba h)
      (refl, ground arith, r.buffered, r.left, λ k. paused_stays k (read_fault d) refl)
