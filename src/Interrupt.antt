-- ===== src/Interrupt.antt =====
-- src/interrupt.rs: the interrupt controller. `lines` is the array of the eight `IrqLine`s,
-- indexed by level; the handlers return the new controller.
pub mod Pending
pub mod Routing
mod Tests
use monte_lauro_ml_cd32_ppc.Base.{
  ℕ, ◌<◌, Bool, true, false, Option, none, some, List, [], ◌∷◌, if◌then◌else◌, ltb, ◌==◌, update,
}

pub data IrqSource : Type 0 where
  gpu_vblank cdrom_data cdrom_done timer0 timer1 dma_done uart_rx : IrqSource

data CpuTarget : Type 0 where
  ppc cold_fire : CpuTarget

-- a row of `routing`: (source, target, level, vector)
record Route : Type 0 where
  pub source : IrqSource
  pub target : CpuTarget
  pub level : ℕ
  pub vector : ℕ

-- `pending_cf_level` and `pending_cf_vector` are `u8`; they only ever hold levels and vectors of
-- the table.
pub record InterruptController : Type 0 where
  pub lines : ℕ → Bool
  pub pending_ppc : Bool
  pub pending_cf_level : ℕ
  pub pending_cf_vector : ℕ

-- the table that `new` installs and nothing changes
abbrev routing : List Route
routing =
    record { source = gpu_vblank; target = ppc; level = 1; vector = 0x64 }
    ∷ record { source = cdrom_data; target = ppc; level = 2; vector = 0x68 }
    ∷ record { source = cdrom_done; target = ppc; level = 2; vector = 0x68 }
    ∷ record { source = timer0; target = cold_fire; level = 3; vector = 0x6C }
    ∷ record { source = timer1; target = ppc; level = 3; vector = 0x6C }
    ∷ record { source = dma_done; target = ppc; level = 4; vector = 0x70 }
    ∷ record { source = uart_rx; target = cold_fire; level = 4; vector = 0x70 }
    ∷ []

unfoldable pub new : InterruptController
new = record {
  lines = λ i. false;
  pending_ppc = false;
  pending_cf_level = 0;
  pending_cf_vector = 0;
}

-- `*src == source`
abbrev same_source : IrqSource → IrqSource → Bool
same_source gpu_vblank gpu_vblank = true
same_source cdrom_data cdrom_data = true
same_source cdrom_done cdrom_done = true
same_source timer0 timer0 = true
same_source timer1 timer1 = true
same_source dma_done dma_done = true
same_source uart_rx uart_rx = true
same_source _ _ = false

-- The loop of `assert_irq` and `deassert_irq`: writes `on` to the line of each row of `source`.
set_lines : List Route → IrqSource → Bool → (ℕ → Bool) → ℕ → Bool
set_lines [] source on lines = lines
set_lines (r ∷ rs) source on lines =
    set_lines rs source on (if same_source r.source source then update lines r.level on else lines)

-- the `match target` of `update_pending`
raise : Route → CpuTarget → InterruptController → InterruptController
raise r ppc c = record c { pending_ppc = true }
raise r cold_fire c =
    if ltb c.pending_cf_level r.level
    then record c { pending_cf_level = r.level; pending_cf_vector = r.vector }
    else c

-- the inner loop of `update_pending`, over the rows of one level
scan_routes : List Route → ℕ → InterruptController → InterruptController
scan_routes [] level c = c
scan_routes (r ∷ rs) level c =
    scan_routes rs level (if r.level == level then raise r r.target c else c)

-- one round of the outer loop
scan_level : InterruptController → ℕ → InterruptController
scan_level c level = if c.lines level then scan_routes routing level c else c

scan_levels : List ℕ → InterruptController → InterruptController
scan_levels [] c = c
scan_levels (l ∷ ls) c = scan_levels ls (scan_level c l)

update_pending : InterruptController → InterruptController
update_pending c =
    scan_levels (7 ∷ 6 ∷ 5 ∷ 4 ∷ 3 ∷ 2 ∷ 1 ∷ [])
      (record c { pending_ppc = false; pending_cf_level = 0; pending_cf_vector = 0 })

pub assert_irq : IrqSource → InterruptController → InterruptController
assert_irq source c = update_pending (record c { lines = set_lines routing source true c.lines })

pub deassert_irq : IrqSource → InterruptController → InterruptController
deassert_irq source c = update_pending (record c { lines = set_lines routing source false c.lines })

unfoldable pub ppc_irq_pending : InterruptController → Bool
ppc_irq_pending c = c.pending_ppc

unfoldable pub cf_irq_pending : InterruptController → Option (ℕ × ℕ)
cf_irq_pending c =
    if ltb 0 c.pending_cf_level then some (c.pending_cf_level, c.pending_cf_vector) else none
