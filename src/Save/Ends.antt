-- ===== src/Save/Ends.antt =====
-- `load_state` comes to an end.
use monte_lauro_ml_cd32_ppc.Base.{
  ℕ, zero, suc, Bool, true, false, Option, none, some, List, [], ◌∷◌, if◌then◌else◌, ◌==◌, ltb,
  Bool-cases, inl, inr, length, ◌≢◌, refl, arith,
}
use monte_lauro_ml_cd32_ppc.Base.Run
use monte_lauro_ml_cd32_ppc.Base.Run.{Run, value, panic, out_of_fuel}
use monte_lauro_ml_cd32_ppc.Base.Exec.{Exit, ok, fault, Done, Ends, ends_rules}
use monte_lauro_ml_cd32_ppc.ColdFire.{ColdFire}
use monte_lauro_ml_cd32_ppc.Gpu.{Gpu}
use monte_lauro_ml_cd32_ppc.Cdrom.{CdromDrive}
use monte_lauro_ml_cd32_ppc.Dma.{DmaController, DmaChannel}
use monte_lauro_ml_cd32_ppc.Bus.{Bus}
use monte_lauro_ml_cd32_ppc.Ppc.{Ppu}
use monte_lauro_ml_cd32_ppc.Save.{SaveError, Reader, field, read_words, split, or_panic}
use monte_lauro_ml_cd32_ppc.Save.Sections.{
  read_gpu, load_gpu, load_audio, read_cdrom, load_cdrom, read_channel, read_dma, load_dma,
  read_bus, load_bus,
}
use monte_lauro_ml_cd32_ppc.Save.Processors.{
  loaded, read_flag, sized, read_ppc, load_ppc, read_cf, load_cf,
}
use monte_lauro_ml_cd32_ppc.Save.State.{
  Hardware, put, then_load, load_section, load_sections, read_header, load_body, load_state,
}
use monte_lauro_ml_cd32_ppc.Save.Format.{read_sections-ends, Ends-read_exact}

Ends-field : (n : ℕ) → Ends (field n)
unfolding field
Ends-field n = record { at = λ bs. go (split n bs) }
  where
    go : (o : Option (List ℕ × List ℕ)) → or_panic o ≢ out_of_fuel
    go none h = cc
    go (some (f, r)) h = cc

Ends-read_words : (n i : ℕ) (f : ℕ → ℕ) → Ends (read_words n i f)
unfolding read_words
Ends-read_words zero i f = search ends_rules
Ends-read_words (suc n) i f = search (ends_rules, Ends-field, Ends-read_words n)

Ends-read_flag : Ends read_flag
unfolding read_flag
Ends-read_flag = search (ends_rules, Ends-field)

ruleset field_rules = (ends_rules, Ends-field, Ends-read_words, Ends-read_flag)

loaded-ends :
    {A : Type 0} (r : Run (List ℕ × Exit SaveError A)) → r ≢ out_of_fuel → loaded r ≢ out_of_fuel
loaded-ends (value (rest, e)) h = λ p. cc
loaded-ends panic h = λ p. cc
loaded-ends out_of_fuel h = absurd (h refl)

sized_finishes :
    {A : Type 0} (sec expected : ℕ) (reader : Reader A) (body : List ℕ)
    → Ends reader
    → sized sec expected reader body ≢ out_of_fuel
unfolding sized
sized_finishes sec expected reader body h = elim (Bool-cases (ltb (length body) expected)) [
  | inl e ↦ rw e (λ p. cc)
  | inr e ↦ rw e (loaded-ends (reader body) (h.at body))
]

put-ends :
    {A : Type 0} (f : A → Hardware) (hw : Hardware) (r : Run (Exit SaveError A))
    → r ≢ out_of_fuel
    → put f hw r ≢ out_of_fuel
put-ends f hw (value (ok a)) h = λ p. cc
put-ends f hw (value (fault e)) h = λ p. cc
put-ends f hw panic h = λ p. cc
put-ends f hw out_of_fuel h = absurd (h refl)

load_ppc-ends : (p : Ppu) (body : List ℕ) → load_ppc p body ≢ out_of_fuel
unfolding load_ppc read_ppc
load_ppc-ends p body = sized_finishes _ _ (read_ppc p) body (search field_rules depth 40 fits 5000)

load_cf-ends : (c : ColdFire) (body : List ℕ) → load_cf c body ≢ out_of_fuel
unfolding load_cf read_cf
load_cf-ends c body = sized_finishes _ _ (read_cf c) body (search field_rules depth 40 fits 5000)

load_gpu-ends : (g : Gpu) (body : List ℕ) → load_gpu g body ≢ out_of_fuel
unfolding load_gpu read_gpu
load_gpu-ends g body = sized_finishes _ _ (read_gpu g) body (search field_rules depth 40 fits 5000)

load_cdrom-ends : (d : CdromDrive) (body : List ℕ) → load_cdrom d body ≢ out_of_fuel
unfolding load_cdrom read_cdrom
load_cdrom-ends d body =
    sized_finishes _ _ (read_cdrom d) body (search field_rules depth 40 fits 5000)

Ends-read_channel : (c : DmaChannel) → Ends (read_channel c)
unfolding read_channel
Ends-read_channel c = search field_rules depth 40 fits 5000

load_dma-ends : (d : DmaController) (body : List ℕ) → load_dma d body ≢ out_of_fuel
unfolding load_dma read_dma
load_dma-ends d body =
    sized_finishes _ _ (read_dma d) body
      (search (field_rules, Ends-read_channel) depth 40 fits 5000)

load_bus-ends : (b : Bus) (body : List ℕ) → load_bus b body ≢ out_of_fuel
unfolding load_bus read_bus
load_bus-ends b body = sized_finishes _ _ (read_bus b) body (search field_rules depth 40 fits 5000)

if-ends :
    {A : Type 0} (b : Bool) {x y : Run A}
    → x ≢ out_of_fuel
    → y ≢ out_of_fuel
    → (if b then x else y) ≢ out_of_fuel
if-ends true h k = h
if-ends false h k = k

value-ends : {A : Type 0} (a : A) → value a ≢ out_of_fuel
value-ends a h = cc

load_section-ends : (id : ℕ) (body : List ℕ) (hw : Hardware) → load_section id body hw ≢ out_of_fuel
unfolding load_section load_audio
load_section-ends id body hw = if-ends (id == 1) (put-ends _ _ _ (load_ppc-ends hw.ppc body)) (
    if-ends (id == 2) (put-ends _ _ _ (load_cf-ends hw.coldfire body)) (
      if-ends (id == 3) (value-ends _) (
        if-ends (id == 4) (value-ends _) (
          if-ends (id == 6) (value-ends _) (
            if-ends (id == 7) (put-ends _ _ _ (load_gpu-ends hw.bus.gpu body)) (
              if-ends (id == 8) (value-ends _) (
                if-ends (id == 9) (put-ends _ _ _ (load_cdrom-ends hw.bus.cdrom body)) (
                  if-ends (id == 10) (put-ends _ _ _ (load_dma-ends hw.bus.dma body)) (
                    if-ends (id == 11) (put-ends _ _ _ (load_bus-ends hw.bus body))
                      (value-ends _))))))))))

load_sections-ends :
    (secs : List (ℕ × List ℕ)) (hw : Hardware) → load_sections secs hw ≢ out_of_fuel
unfolding load_sections
load_sections-ends [] hw = λ h. cc
load_sections-ends ((id, body) ∷ secs) hw =
    then_load-ends (load_section id body hw) (load_sections secs) (load_section-ends id body hw)
      (load_sections-ends secs)
  where
    then_load-ends :
        (r : Run (Hardware × Exit SaveError Done))
        (k : Hardware → Run (Hardware × Exit SaveError Done))
        → r ≢ out_of_fuel
        → ((h : Hardware) → k h ≢ out_of_fuel)
        → then_load r k ≢ out_of_fuel
    then_load-ends (value (h, ok a)) k p q = q h
    then_load-ends (value (h, fault e)) k p q = λ e'. cc
    then_load-ends panic k p q = λ e'. cc
    then_load-ends out_of_fuel k p q = absurd (p refl)

Ends-read_header : Ends read_header
unfolding read_header
Ends-read_header = search (ends_rules, Ends-read_exact) depth 30

-- `load_state` comes to an end on every file: with the machine loaded, with an error, or in a panic.
pub load_state-ends : (file : List ℕ) (hw : Hardware) → load_state file hw ≢ out_of_fuel
unfolding load_state
load_state-ends file hw = go (read_header file) (Ends-read_header.at file)
  where
    secs-ends :
        (r : Run (List (ℕ × List ℕ)))
        → r ≢ out_of_fuel
        → Run.◌>>=◌ r (λ secs. load_sections secs hw) ≢ out_of_fuel
    secs-ends (value secs) h = load_sections-ends secs hw
    secs-ends panic h = λ p. cc
    secs-ends out_of_fuel h = absurd (h refl)

    go : (r : Run (List ℕ × Exit SaveError Done)) → r ≢ out_of_fuel → load_body r hw ≢ out_of_fuel
    go (value (rest, ok a)) h =
        secs-ends _ (read_sections-ends (suc (length rest)) rest (omega arith))
    go (value (rest, fault e)) h = λ p. cc
    go panic h = λ p. cc
    go out_of_fuel h = absurd (h refl)
