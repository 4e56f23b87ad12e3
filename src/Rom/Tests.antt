-- ===== src/Rom/Tests.antt =====
-- The theorems of the generator of images, at concrete images and instructions.
use monte_lauro_ml_cd32_ppc.Base.{
  ℕ, false, [], ◌∷◌, some, ◌==◌, if◌then◌else◌, ◌≡◌, ◌≢◌, refl, arith, inr, Bytes, slice, update,
}
use monte_lauro_ml_cd32_ppc.Base.Run.{value}
use monte_lauro_ml_cd32_ppc.Base.Exec.{ok, ◌>>=◌}
use monte_lauro_ml_cd32_ppc.Memory
use monte_lauro_ml_cd32_ppc.Bus
use monte_lauro_ml_cd32_ppc.Bus.{Bus}
use monte_lauro_ml_cd32_ppc.Bus.Access
use monte_lauro_ml_cd32_ppc.Bus.Interface.{BusInterface, bus_interface}
use monte_lauro_ml_cd32_ppc.Ppc.{Core, Reaches, with_regs}
use monte_lauro_ml_cd32_ppc.Ppc.Dispatch.{step, dispatch}
use monte_lauro_ml_cd32_ppc.Rom.{i_addis, i_ori, i_b, i_mtspr, i_lwz, i_cmpi}
use monte_lauro_ml_cd32_ppc.Rom.Image.{Rom}
use monte_lauro_ml_cd32_ppc.Rom.Programs.{build_cf_aros, build_ppc_aros, spin_branch}
use monte_lauro_ml_cd32_ppc.Rom.Targets.{aros_rom, file}
use monte_lauro_ml_cd32_ppc.Rom.Layout.{half_list, word_list, aros_rom-holds}
use monte_lauro_ml_cd32_ppc.Rom.Agreement.{load_constant, dispatch-i_b, i_mtspr-blocks}
use monte_lauro_ml_cd32_ppc.Rom.Boot.{spin_escapes}

instance abbrev machine_bus : BusInterface
machine_bus = bus_interface false

abbrev bios : Bytes
bios = record { len = 0; cell = λ i. 0 }

aros_rom-holds_example :
    (rom : Rom) × (aros_rom (file (1 ∷ 2 ∷ 3 ∷ [])) ≡ value rom)
    × (slice rom.cell 0 68 ≡ half_list build_cf_aros)
    × (slice rom.cell 0x100 252 ≡ word_list build_ppc_aros)
    × (slice rom.cell 0x10000 3 ≡ 1 ∷ 2 ∷ 3 ∷ [])
    × (slice rom.cell 0x7FFFE 2 ≡ 0xFE ∷ 0xED ∷ [])
aros_rom-holds_example = aros_rom-holds (1 ∷ 2 ∷ 3 ∷ []) 3 (omega arith) (omega arith) (omega arith)

abbrev core_at : ℕ → Bus → Core
core_at pc b = (
  record {
    regs = record {
      gpr = λ i. i;
      pc = pc;
      lr = 0;
      ctr = 0;
      cr = 0;
      xer = 0;
      msr = 0x40;
      srr0 = 0;
      srr1 = 0;
      sr = λ i. 0;
      sdr1 = 0;
      ibat = λ i. 0;
      dbat = λ i. 0;
      tlb_miss = false;
    };
    halt = false;
    trace = false;
  },
  b,
)

abbrev plain : Core
plain = core_at 0x104 (Bus.new bios)

load_constant_example :
    Reaches ((dispatch (i_addis 3 0 0xDEAD) >>= λ n. dispatch (i_ori 3 3 0xBEEF)) plain) (λ t.
      (t.0.regs.gpr 3 ≡ 0xDEAD_BEEF)
      × ((j : ℕ) → j ≢ 3 → t.0.regs.gpr j ≡ j)
      × (record t.0 { regs = record t.0.regs { gpr = λ i. i } } ≡ plain.0)
      × (t.1 ≡ plain.1))
load_constant_example =
    load_constant 3 0xDEAD 0xBEEF plain (omega arith) (omega arith) (omega arith)

dispatch-i_b_example : dispatch (i_b 0xC0 0x100) plain ≡ value (core_at 0xC0 (Bus.new bios), ok 1)
dispatch-i_b_example =
    dispatch-i_b 0xC0 0x100 plain (omega arith) (omega arith) refl (inr (omega arith, omega arith))
      refl

i_mtspr-blocks_example :
    (dispatch (i_mtspr 536 3) plain ≡ value (plain, ok 1))
    × (dispatch (i_mtspr 528 3) plain
        ≡ value (with_regs (record plain.0.regs { ibat = update (λ i. 0) 0 3 }) plain, ok 1))
i_mtspr-blocks_example = i_mtspr-blocks 536 3 plain (omega arith) (omega arith) (omega arith)

-- the three words of the wait at 0x100, and 7 at 0
abbrev waiting : ℕ → ℕ
waiting i =
    if i == 3
    then 7
    else if i == 0x100
    then 0x80
    else if i == 0x101
    then 0x60
    else if i == 0x104
    then 0x2C
    else if i == 0x105
    then 0x03
    else if i == 0x107
    then 0x01
    else if i == 0x108
    then 0x40
    else if i == 0x109
    then 0x82
    else if i == 0x10A
    then 0x3F
    else if i == 0x10B
    then 0xFD
    else 0

abbrev wait : Core
wait =
    let b = Bus.new bios in
    core_at 0x100
      (record b { mem = record b.mem { unified = record b.mem.unified { cell = waiting } } })

wait_words :
    ((Access.read_word wait.1 0x100 ≡ some (i_lwz 3 0 0))
      × (Access.read_word wait.1 0x104 ≡ some (i_cmpi 3 1))
      × (Access.read_word wait.1 0x108 ≡ some spin_branch))
    × (Access.read_word wait.1 0 ≡ some 7)
unfolding Access.read_word Access.read_word_in Memory.region Memory.read_word
    Memory.slice_and_offset Memory.slice_and_offset_in Bus.new Memory.new i_lwz i_cmpi
wait_words = ((refl, refl, refl), refl)

spin_escapes_example :
    Reaches
      ((step >>= λ l. step >>= λ m. step) wait)
      (λ t. (t.0.regs.pc ≡ 0x4104) × (t.0.regs.gpr 3 ≡ 7) × (t.1 ≡ wait.1))
spin_escapes_example =
    spin_escapes 7 wait refl (refl, refl, refl) refl wait_words.0 wait_words.1 (omega arith)
