-- ===== src/Save/Whole.antt =====
-- `load_state` as a whole: it refuses what is no save state, and of a file that `save_state` has
-- written it loads the sections.
use monte_lauro_ml_cd32_ppc.Base.{
  ℕ, zero, suc, ◌+◌, ◌*◌, ◌^◌, ◌≤◌, ◌<◌, Bool, true, false, Option, none, some, List, [], ◌∷◌, ◌++◌,
  if◌then◌else◌, ◌==◌, ltb, Bool-cases, inl, inr, Bytes, length, length-slice, slice, ◌≡◌, ◌≢◌,
  refl, ap, ◌∙◌, sym, arith, length-append,
}
use monte_lauro_ml_cd32_ppc.Base.Run.{value}
use monte_lauro_ml_cd32_ppc.Base.Exec.{ok, fault, pure, raise, ◌>>=◌, continue}
use monte_lauro_ml_cd32_ppc.ColdFire.{ColdFire}
use monte_lauro_ml_cd32_ppc.Gpu.{Gpu}
use monte_lauro_ml_cd32_ppc.Cdrom.{CdromDrive}
use monte_lauro_ml_cd32_ppc.Dma.{DmaController}
use monte_lauro_ml_cd32_ppc.Bus.{Bus}
use monte_lauro_ml_cd32_ppc.Memory.{vram_view}
use monte_lauro_ml_cd32_ppc.Memory.Access.{IsValid}
use monte_lauro_ml_cd32_ppc.Ppc.{Ppu}
use monte_lauro_ml_cd32_ppc.Save.{
  bad_magic, bad_version, words, to_be, split, read_exact, write_sec, more_sections, read_sections,
}
use monte_lauro_ml_cd32_ppc.Save.Sections.{
  save_gpu, save_cdrom, save_dma, save_channel, save_bus, save_mem_region, save_audio,
}
use monte_lauro_ml_cd32_ppc.Save.Processors.{save_ppc, save_cf}
use monte_lauro_ml_cd32_ppc.Save.State.{
  same_bytes, Hardware, magic, version, load_sections, read_header, load_state, save_state,
  sections_of, write_secs,
}
use monte_lauro_ml_cd32_ppc.Save.Format.{
  read_body, from_be-to_be_4, end_of_file, Fit, fit_none, fit_more, read_sections-write_secs,
}

pub length-words : (f : ℕ → ℕ) (i n : ℕ) → length (words f i n) ≡ 4 * n
unfolding words
length-words f i zero = refl
length-words f i (suc n) = omega (arith, length-words f (i + 1) n)

length-sections : (secs : List (ℕ × List ℕ)) → length secs ≤ length (write_secs secs)
unfolding write_secs write_sec
length-sections [] = omega arith
length-sections ((id, body) ∷ secs) =
    omega (arith, length-append body (write_secs secs), length-sections secs)

after_header :
    (rest : List ℕ)
    → read_header (magic ++ (to_be 4 version ++ (to_be 4 0 ++ rest))) ≡ value (rest, ok tt)
unfolding read_header read_exact split pure ◌>>=◌ continue
after_header rest = refl

pub ruleset size_rules = (length-append, length-words)

length-save_ppc : (p : Ppu) → length (save_ppc p) < 2 ^ 32
unfolding save_ppc
length-save_ppc p = simp size_rules (omega arith)

length-save_cf : (c : ColdFire) → length (save_cf c) < 2 ^ 32
unfolding save_cf
length-save_cf c = simp size_rules (omega arith)

length-save_gpu : (g : Gpu) → length (save_gpu g) < 2 ^ 32
unfolding save_gpu
length-save_gpu g = simp size_rules (omega arith)

length-save_cdrom : (d : CdromDrive) → length (save_cdrom d) < 2 ^ 32
unfolding save_cdrom
length-save_cdrom d = simp size_rules (omega arith)

length-save_dma : (d : DmaController) → length (save_dma d) < 2 ^ 32
unfolding save_dma save_channel
length-save_dma d = simp size_rules (omega arith)

length-save_bus : (b : Bus) → length (save_bus b) < 2 ^ 32
unfolding save_bus
length-save_bus b = omega arith

length-save_mem_region : (b : Bytes) → b.len < 2 ^ 32 → length (save_mem_region b) < 2 ^ 32
unfolding save_mem_region
length-save_mem_region b h = rw (length-slice b.cell 0 b.len) h

sections_of-Fit : (hw : Hardware) → IsValid hw.bus.mem → Fit (sections_of hw)
unfolding sections_of save_audio vram_view
sections_of-Fit hw v = fit_more (length-save_ppc hw.ppc) (
    fit_more (length-save_cf hw.coldfire) (
      fit_more (length-save_mem_region hw.bus.mem.unified (omega (arith, v.unified_len))) (
        fit_more (length-save_mem_region (vram_view hw.bus.mem) (omega arith)) (
          fit_more (length-save_gpu hw.bus.gpu) (
            fit_more (omega arith) (
              fit_more (length-save_cdrom hw.bus.cdrom) (
                fit_more (length-save_dma hw.bus.dma)
                  (fit_more (length-save_bus hw.bus) fit_none))))))))

-- Loading what `save_state` has written of one machine into another is loading its nine sections, in
-- their order.
pub load_state-save_state :
    (hw hw' : Hardware)
    → IsValid hw.bus.mem
    → load_state (save_state hw) hw' ≡ load_sections (sections_of hw) hw'
unfolding load_state save_state
load_state-save_state hw hw' v = rw (after_header (write_secs (sections_of hw))) (
    rw
      (read_sections-write_secs (suc (length (write_secs (sections_of hw)))) (sections_of hw)
        (sections_of-Fit hw v) (omega (arith, length-sections (sections_of hw))))
      refl)

other_magic :
    (m rest : List ℕ) (hw : Hardware)
    → length m ≡ 8
    → same_bytes m magic ≡ false
    → load_state (m ++ rest) hw ≡ value (hw, fault bad_magic)
unfolding load_state read_header raise ◌>>=◌ continue
other_magic m rest hw h k = rw (read_body 8 m rest (sym h)) (rw k refl)

other_version :
    (v : ℕ) (rest : List ℕ) (hw : Hardware)
    → v < 2 ^ 32
    → v ≢ 1
    → load_state (magic ++ (to_be 4 v ++ rest)) hw ≡ value (hw, fault (bad_version v))
unfolding load_state read_header raise ◌>>=◌ continue
other_version v rest hw h k =
    rw (read_body 8 magic (to_be 4 v ++ rest) refl)
      (rw (read_body 4 (to_be 4 v) rest refl) rw (from_be-to_be_4 v h) (rw (is_other v k) refl))
  where
    is_other : (v : ℕ) → v ≢ 1 → (v == 1) ≡ false
    is_other v h = ground arith

-- A file that starts with eight bytes other than the magic is refused, and so is one of a version
-- other than 1, and nothing of the machine changes.
load_state-refused :
    (m rest : List ℕ) (v : ℕ) (hw : Hardware)
    → length m ≡ 8
    → same_bytes m magic ≡ false
    → v < 2 ^ 32
    → v ≢ 1
    → (load_state (m ++ rest) hw ≡ value (hw, fault bad_magic))
      × (load_state (magic ++ (to_be 4 v ++ rest)) hw ≡ value (hw, fault (bad_version v)))
load_state-refused m rest v hw h k hv h1 =
    (other_magic m rest hw h k, other_version v rest hw hv h1)

-- A file that holds the magic and a version, and no section, is accepted and changes nothing.
load_state-empty :
    (hw : Hardware) → load_state (magic ++ (to_be 4 version ++ to_be 4 0)) hw ≡ value (hw, ok tt)
unfolding load_state read_sections more_sections load_sections
load_state-empty hw = rw (after_header []) (rw end_of_file refl)
