-- ===== src/Cdrom/Tests.antt =====
-- Runs of the CD-ROM drive, and its theorems at concrete discs.
use monte_lauro_ml_cd32_ppc.Base.{
  ℕ, ◌*◌, ◌/◌, true, false, some, [], ◌∷◌, ◌≡◌, refl, if◌then◌else◌, ◌==◌, Bytes,
}
use monte_lauro_ml_cd32_ppc.Cdrom.{CdromDrive, reading, ready, new, insert_disc, tick, start_read}
use monte_lauro_ml_cd32_ppc.Cdrom.Iso.{
  IsoFile, from_utf8_lossy, split, eq_ignore_ascii_case, trim_end_matches,
}
use monte_lauro_ml_cd32_ppc.Cdrom.Window.{insert_then_tick}

-- a disc of twenty sectors, each filled with its number
abbrev disc : Bytes
disc = record { len = 20 * 2048; cell = λ i. i / 2048 }

abbrev loaded : CdromDrive
loaded = record {
  state = ready;
  regs = λ i. 0;
  data_buffer = [];
  disc_inserted = true;
  lba = 0;
  sectors_remaining = 0;
  virtual_disc = some disc;
  fs_ready = false;
  root_lba = 0;
  root_size = 0;
}

texts :
    (from_utf8_lossy (0x41 ∷ 0xE2 ∷ 0x82 ∷ 0x42 ∷ 0xC3 ∷ 0xA9 ∷ [])
      ≡ 0x41 ∷ 0xEF ∷ 0xBF ∷ 0xBD ∷ 0x42 ∷ 0xC3 ∷ 0xA9 ∷ [])
    × (trim_end_matches 0x3B (0x41 ∷ 0x3B ∷ 0x42 ∷ 0x3B ∷ 0x3B ∷ []) ≡ 0x41 ∷ 0x3B ∷ 0x42 ∷ [])
    × (split 0x2F (0x41 ∷ 0x2F ∷ []) ≡ (0x41 ∷ []) ∷ [] ∷ [])
    × (eq_ignore_ascii_case (0x41 ∷ []) (0x61 ∷ []) ≡ true)
unfolding from_utf8_lossy trim_end_matches split eq_ignore_ascii_case
texts = (refl, refl, refl, refl)

abbrev at_end : CdromDrive
at_end = record loaded { state = reading; lba = 20; sectors_remaining = 2 }

-- a directory of one record of 34 bytes that announces a name of 200
abbrev overrun : Bytes
overrun = record { len = 34; cell = λ i. if i == 0 then 34 else if i == 32 then 200 else 0 }

abbrev picture : IsoFile
picture = record { name = 0x41 ∷ []; lba = 18; size = 3000; is_dir = false }

insert_then_tick_example :
    ((tick (insert_disc disc new)).state ≡ ready)
    × ((tick (insert_disc disc new)).virtual_disc ≡ some disc)
    × ((lba n : ℕ) → start_read lba n (insert_disc disc new) ≡ insert_disc disc new)
insert_then_tick_example = insert_then_tick disc new
