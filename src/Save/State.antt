-- ===== src/Save/State.antt =====
-- src/save.rs: `save_state` and `load_state`, from the machine to the bytes of the file and back.
use monte_lauro_ml_cd32_ppc.Base.{
  ℕ, suc, List, [], ◌∷◌, ◌++◌, if◌then◌else◌, ◌==◌, ◌&&◌, Bool, true, false, length,
}
use monte_lauro_ml_cd32_ppc.Base.Run
use monte_lauro_ml_cd32_ppc.Base.Run.{Run, value, panic, out_of_fuel}
use monte_lauro_ml_cd32_ppc.Base.Exec.{Exit, ok, fault, Done, pure, raise, ◌>>=◌}
use monte_lauro_ml_cd32_ppc.ColdFire.{ColdFire}
use monte_lauro_ml_cd32_ppc.Memory.{vram_view, put_vram}
use monte_lauro_ml_cd32_ppc.Hardware.{Cd32Hardware}
use monte_lauro_ml_cd32_ppc.Ppc.{Ppu}
use monte_lauro_ml_cd32_ppc.Save.{
  SaveError, bad_magic, bad_version, Reader, to_be, from_be, read_exact, write_sec, read_sections,
}
use monte_lauro_ml_cd32_ppc.Save.Sections.{
  save_mem_region, load_mem_region, save_gpu, load_gpu, save_audio, load_audio, save_cdrom,
  load_cdrom, save_dma, load_dma, save_bus, load_bus,
}
use monte_lauro_ml_cd32_ppc.Save.Processors.{save_ppc, load_ppc, save_cf, load_cf}

abbrev pub Hardware : Type 0
Hardware = Cd32Hardware Ppu ColdFire

-- "CD32SAVE"
abbrev pub magic : List ℕ
magic = 0x43 ∷ 0x44 ∷ 0x33 ∷ 0x32 ∷ 0x53 ∷ 0x41 ∷ 0x56 ∷ 0x45 ∷ []

abbrev pub version : ℕ
version = 1

-- the sections of a machine, in their order
unfoldable pub sections_of : Hardware → List (ℕ × List ℕ)
sections_of hw =
    (1, save_ppc hw.ppc)
    ∷ (2, save_cf hw.coldfire)
    ∷ (3, save_mem_region hw.bus.mem.unified)
    ∷ (6, save_mem_region (vram_view hw.bus.mem))
    ∷ (7, save_gpu hw.bus.gpu)
    ∷ (8, save_audio hw.bus.audio)
    ∷ (9, save_cdrom hw.bus.cdrom)
    ∷ (10, save_dma hw.bus.dma)
    ∷ (11, save_bus hw.bus)
    ∷ []

unfoldable pub write_secs : List (ℕ × List ℕ) → List ℕ
write_secs [] = []
write_secs ((id, body) ∷ secs) = write_sec id body ++ write_secs secs

-- what a file has after `save_state`, if the file system takes it
unfoldable pub save_state : Hardware → List ℕ
unfolding sections_of write_secs
save_state hw = magic ++ (to_be 4 version ++ (to_be 4 0 ++ write_secs (sections_of hw)))

abbrev pub same_bytes : List ℕ → List ℕ → Bool
same_bytes [] [] = true
same_bytes (x ∷ xs) (y ∷ ys) = x == y && same_bytes xs ys
same_bytes _ _ = false

-- the machine with a component that a section has given, or the error of the section
abbrev pub put :
    {A : Type 0}
    → (A → Hardware)
    → Hardware
    → Run (Exit SaveError A)
    → Run (Hardware × Exit SaveError Done)
put f hw (value (ok a)) = value (f a, ok tt)
put f hw (value (fault e)) = value (hw, fault e)
put f hw panic = panic
put f hw out_of_fuel = out_of_fuel

abbrev with_unified : List ℕ → Hardware → Hardware
with_unified body hw =
    let m = hw.bus.mem in
    record hw {
      bus = record hw.bus { mem = record m { unified = load_mem_region m.unified body } };
    }

-- the match on the number of a section
unfoldable pub load_section : ℕ → List ℕ → Hardware → Run (Hardware × Exit SaveError Done)
load_section id body hw =
    let b = hw.bus in
    if id == 1
    then put (λ p. record hw { ppc = p }) hw (load_ppc hw.ppc body)
    else if id == 2
    then put (λ c. record hw { coldfire = c }) hw (load_cf hw.coldfire body)
    else if id == 3
    then value (with_unified body hw, ok tt)
    else if id == 4
    then value (if length body == b.mem.unified.len then with_unified body hw else hw, ok tt)
    else if id == 6
    then value (
      record hw {
        bus = record b { mem = put_vram (load_mem_region (vram_view b.mem) body) b.mem };
      },
      ok tt,
    )
    else if id == 7
    then put (λ g. record hw { bus = record b { gpu = g } }) hw (load_gpu b.gpu body)
    else if id == 8
    then put (λ a. record hw { bus = record b { audio = a } }) hw (load_audio b.audio body)
    else if id == 9
    then put (λ d. record hw { bus = record b { cdrom = d } }) hw (load_cdrom b.cdrom body)
    else if id == 10
    then put (λ d. record hw { bus = record b { dma = d } }) hw (load_dma b.dma body)
    else if id == 11
    then put (λ b'. record hw { bus = b' }) hw (load_bus b body)
    else value (hw, ok tt)

-- `?` in the loop over the sections: an error leaves what the sections before it have put in
abbrev pub then_load :
    Run (Hardware × Exit SaveError Done)
    → (Hardware → Run (Hardware × Exit SaveError Done))
    → Run (Hardware × Exit SaveError Done)
then_load (value (hw, ok a)) k = k hw
then_load (value (hw, fault e)) k = value (hw, fault e)
then_load panic k = panic
then_load out_of_fuel k = out_of_fuel

unfoldable pub load_sections : List (ℕ × List ℕ) → Hardware → Run (Hardware × Exit SaveError Done)
load_sections [] hw = value (hw, ok tt)
load_sections ((id, body) ∷ secs) hw = then_load (load_section id body hw) (load_sections secs)

-- the magic, the version and the flags, in front of the sections
unfoldable pub read_header : Reader Done
read_header = do
  m ← read_exact 8
  if same_bytes m magic
      then (do
        v ← read_exact 4
        if from_be v == version
            then (do flags ← read_exact 4; pure tt)
            else raise (bad_version (from_be v)))
      else raise bad_magic

abbrev pub load_body :
    Run (List ℕ × Exit SaveError Done) → Hardware → Run (Hardware × Exit SaveError Done)
load_body (value (rest, ok a)) hw =
    Run.◌>>=◌ (read_sections (suc (length rest)) rest) (λ secs. load_sections secs hw)
load_body (value (rest, fault e)) hw = value (hw, fault e)
load_body panic hw = panic
load_body out_of_fuel hw = out_of_fuel

-- `load_state` of a file with these bytes
unfoldable pub load_state : List ℕ → Hardware → Run (Hardware × Exit SaveError Done)
unfolding read_header load_sections load_section
load_state file hw = load_body (read_header file) hw
