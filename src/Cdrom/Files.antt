-- ===== src/Cdrom/Files.antt =====
-- The file system: the scan of a directory ends, a record that overruns makes it panic, and a file
-- is read whole.
use monte_lauro_ml_cd32_ppc.Base.{
  ℕ, zero, suc, ◌+◌, ◌-◌, ◌*◌, ◌^◌, ◌≤◌, ◌<◌, min, Bool, true, not, Option, none, some, List, [],
  ◌∷◌, ◌++◌, if◌then◌else◌, ltb, ◌==◌, ◌&&◌, ◌||◌, Bytes, slice, slice-add, length-slice, u32, ◌≡◌,
  ◌≢◌, refl, sym, ap, ap₂, ◌∙◌, arith, length, take, le→ltb, Bool-cases, inl, inr, ◌>>=◌,
}
use monte_lauro_ml_cd32_ppc.Base.Run
use monte_lauro_ml_cd32_ppc.Base.Run.{Run, value, panic, out_of_fuel, map_run}
use monte_lauro_ml_cd32_ppc.Cdrom.{CdromDrive, sector_of, read_sector}
use monte_lauro_ml_cd32_ppc.Cdrom.Iso.{
  IsoFile, scan_entries, entry_at, read_dir_entries, gather, of_list, sectors_for, read_sectors,
  read_file,
}

entry_at-ends : (buf : Bytes) (off : ℕ) → entry_at buf off ≢ out_of_fuel
unfolding entry_at
entry_at-ends buf off h = ground arith

-- a record and the rest of the scan
after_entry :
    (e : Run (Option IsoFile)) (g : Option IsoFile → List IsoFile → List IsoFile)
    (rest : Run (List IsoFile))
    → e ≢ out_of_fuel
    → rest ≢ out_of_fuel
    → Run.◌>>=◌ e (λ x. map_run (g x) rest) ≢ out_of_fuel
after_entry out_of_fuel g rest p q h = p refl
after_entry panic g rest p q h = cc
after_entry (value x) g (value fs) p q h = cc
after_entry (value x) g panic p q h = cc
after_entry (value x) g out_of_fuel p q h = q refl

scan_entries-ends :
    (fuel : ℕ) (buf : Bytes) (off : ℕ)
    → off ≤ buf.len
    → buf.len < off + fuel
    → scan_entries fuel buf off ≢ out_of_fuel
unfolding scan_entries
scan_entries-ends zero buf off h1 h2 = absurd (omega arith)
scan_entries-ends (suc fuel) buf off h1 h2 =
    elim (Bool-cases (ltb (off + 1) buf.len && not (buf.cell off == 0))) [
      | inr e ↦ rw e (λ h. cc)
      | inl e ↦
          rw e (elim (Bool-cases (ltb (buf.cell off) 34 || ltb buf.len (off + buf.cell off))) [
            | inl f ↦ rw f (λ h. cc)
            | inr f ↦ rw f (
                after_entry (entry_at buf off) _ (scan_entries fuel buf (off + buf.cell off))
                  (entry_at-ends buf off)
                  (scan_entries-ends fuel buf (off + buf.cell off) (ground arith) (ground arith)))
          ])
    ]

-- The scan of a directory ends on every disc, in a list or in a panic.
pub read_dir_entries-ends :
    (d : CdromDrive) (lba size : ℕ) → read_dir_entries d lba size ≢ out_of_fuel
unfolding read_dir_entries
read_dir_entries-ends d lba size =
    let buf = of_list (gather d lba (sectors_for size)) in
    scan_entries-ends (suc buf.len) buf 0 (omega arith) (omega arith)

-- A directory record that fits in the buffer, while the name that it announces, of two bytes or
-- more, does not, makes the scan panic.
scan_entries-overrun :
    (fuel : ℕ) (buf : Bytes) (off : ℕ)
    → off + 1 < buf.len
    → 34 ≤ buf.cell off
    → off + buf.cell off ≤ buf.len
    → 2 ≤ buf.cell (off + 32)
    → buf.len < off + 33 + buf.cell (off + 32)
    → scan_entries (suc fuel) buf off ≡ panic
unfolding scan_entries entry_at
scan_entries-overrun fuel buf off h1 h2 h3 h4 h5 = ground arith

take-slice : (f : ℕ → ℕ) (k o n : ℕ) → k ≤ n → take k (slice f o n) ≡ slice f o k
unfolding slice
take-slice f zero o n h = refl
take-slice f (suc k) o zero h = absurd (omega arith)
take-slice f (suc k) o (suc n) h = ap (◌∷◌ (f o)) (take-slice f k (o + 1) n (omega arith))

module _ (d : CdromDrive) (disc : Bytes) (file : IsoFile)
    (has_disc : d.virtual_disc ≡ some disc) where
  sector_at :
      (i : ℕ)
      → (file.lba + i + 1) * 2048 ≤ disc.len
      → file.lba + i < 2 ^ 32
      → read_sector d (u32 (file.lba + i)) ≡ some (slice disc.cell ((file.lba + i) * 2048) 2048)
  unfolding read_sector sector_of
  sector_at i h w =
      ap₂ (λ v l. v >>= λ c. sector_of c l) has_disc (omega arith)
      ∙ ap (λ b. if b then none else some (slice disc.cell ((file.lba + i) * 2048) 2048))
          (le→ltb disc.len ((file.lba + i) * 2048 + 2048) (omega arith))

  -- the first `k` bytes of the file
  abbrev head_of : ℕ → List ℕ
  head_of k = slice disc.cell (file.lba * 2048) k

  next_head :
      (i e : ℕ)
      → e ≤ 2048
      → head_of (i * 2048) ++ take e (slice disc.cell ((file.lba + i) * 2048) 2048)
        ≡ head_of (i * 2048 + e)
  next_head i e h =
      ap (λ l. head_of (i * 2048) ++ l)
        (take-slice disc.cell e ((file.lba + i) * 2048) 2048 h
          ∙ ap (λ o. slice disc.cell o e) (omega arith))
      ∙ sym (slice-add disc.cell (file.lba * 2048) (i * 2048) e)

  read_sectors_lem :
      (n i : ℕ)
      → (file.lba + (i + n)) * 2048 ≤ disc.len
      → file.lba + (i + n) < 2 ^ 32
      → (i + n) * 2048 < file.size + 2048
      → read_sectors d file n i (head_of (min file.size (i * 2048)))
        ≡ (head_of (min file.size ((i + n) * 2048)), true)
  unfolding read_sectors
  read_sectors_lem zero i h w s = ap (λ k. (head_of (min file.size (k * 2048)), true)) (omega arith)
  read_sectors_lem (suc n) i h w s =
      rw (sector_at i (omega arith) (omega arith), read_sectors)
        (ap (read_sectors d file n (i + 1)) buffer
          ∙ read_sectors_lem n (i + 1) (omega arith) (omega arith) (omega arith)
          ∙ ap (λ k. (head_of (min file.size (k * 2048)), true)) (omega arith))
    where
      len : ℕ
      len = length (head_of (min file.size (i * 2048)))

      buffer :
          head_of (min file.size (i * 2048))
            ++ take
                (min (min file.size (len + 2048) - len) 2048)
                (slice disc.cell ((file.lba + i) * 2048) 2048)
          ≡ head_of (min file.size ((i + 1) * 2048))
      buffer =
          ap
            (λ l.
              head_of (min file.size (i * 2048))
              ++ take (min (min file.size (l + 2048) - l) 2048)
                  (slice disc.cell ((file.lba + i) * 2048) 2048))
            (length-slice disc.cell (file.lba * 2048) (min file.size (i * 2048)))
          ∙ ap
              (λ x.
                head_of x
                ++ take (min (min file.size (x + 2048) - x) 2048)
                    (slice disc.cell ((file.lba + i) * 2048) 2048))
              whole
          ∙ next_head i (min (min file.size (i * 2048 + 2048) - i * 2048) 2048) (omega arith)
          ∙ ap head_of (omega arith)
        where
          whole : min file.size (i * 2048) ≡ i * 2048
          whole = omega arith

  nothing_yet : [] ≡ head_of (min file.size (0 * 2048))
  unfolding slice
  nothing_yet = ap head_of {x = 0} (omega arith)

  -- A file whose sectors the disc holds, their numbers below 2 ^ 32, is read whole: `read_file`
  -- succeeds, and leaves exactly the bytes of the file in the buffer.
  read_file_whole :
      (file.lba + sectors_for file.size) * 2048 ≤ disc.len
      → file.lba + sectors_for file.size < 2 ^ 32
      → read_file d file ≡ (slice disc.cell (file.lba * 2048) file.size, true)
  unfolding read_file
  read_file_whole h w = ap finish sectors_read ∙ ap (λ l. (l, true)) cut
    where
      finish : List ℕ × Bool → List ℕ × Bool
      finish r = (if r.1 then take file.size r.0 else r.0, r.1)

      n : ℕ
      n = sectors_for file.size

      sectors_read : read_sectors d file n 0 [] ≡ (head_of (min file.size (n * 2048)), true)
      sectors_read =
          ap (read_sectors d file n 0) nothing_yet
          ∙ read_sectors_lem n 0 (omega arith) (omega arith) (omega arith)
          ∙ ap (λ k. (head_of (min file.size (k * 2048)), true)) (omega arith)

      cut : take file.size (head_of (min file.size (n * 2048))) ≡ head_of file.size
      cut =
          ap (λ k. take file.size (head_of k)) (omega arith)
          ∙ take-slice disc.cell file.size (file.lba * 2048) file.size (omega arith)
