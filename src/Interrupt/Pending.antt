-- ===== src/Interrupt/Pending.antt =====
-- What `update_pending` computes from the lines, and the invariant of the controller.
use monte_lauro_ml_cd32_ppc.Base.{
  ℕ, Bool, true, false, ◌≡◌, refl, ◌∙◌, ap, arith, if◌then◌else◌, ◌||◌, ◌==◌, [], ◌∷◌, List,
}
use monte_lauro_ml_cd32_ppc.Interrupt
use monte_lauro_ml_cd32_ppc.Interrupt.{
  Route, IrqSource, gpu_vblank, cdrom_data, cdrom_done, timer0, timer1, dma_done, uart_rx,
  InterruptController, raise, scan_routes, scan_level, scan_levels, set_lines, update_pending,
  assert_irq, deassert_irq, new, ppc_irq_pending, cf_irq_pending,
}

-- The ColdFire's level and vector as a function of the lines of levels 4 and 3.
abbrev cf_level_of : Bool → Bool → ℕ
cf_level_of l4 l3 = if l4 then 4 else if l3 then 3 else 0

abbrev cf_vector_of : Bool → Bool → ℕ
cf_vector_of l4 l3 = if l4 then 0x70 else if l3 then 0x6C else 0

-- The pending fields say what the lines say.
pub record IsSettled (c : InterruptController) : Type 0 where
  pub ppc_settled : c.pending_ppc ≡ (c.lines 1 || (c.lines 2 || (c.lines 3 || c.lines 4)))
  pub level_settled : c.pending_cf_level ≡ cf_level_of (c.lines 4) (c.lines 3)
  pub vector_settled : c.pending_cf_vector ≡ cf_vector_of (c.lines 4) (c.lines 3)

-- Levels 5 to 7 have no row.
scan_high : (c : InterruptController) → scan_level (scan_level (scan_level c 7) 6) 5 ≡ c
unfolding scan_level scan_routes raise
scan_high c = ground arith

scan_low :
    (c : InterruptController)
    → IsSettled (
        scan_levels
          (4 ∷ 3 ∷ 2 ∷ 1 ∷ [])
          (record c { pending_ppc = false; pending_cf_level = 0; pending_cf_vector = 0 }))
unfolding scan_levels scan_level scan_routes raise
scan_low c = ground arith

update_pending-IsSettled : (c : InterruptController) → IsSettled (update_pending c)
unfolding update_pending scan_levels
update_pending-IsSettled c = rw scan_high (scan_low c)

abbrev pub level_of : IrqSource → ℕ
level_of gpu_vblank = 1
level_of cdrom_data = 2
level_of cdrom_done = 2
level_of timer0 = 3
level_of timer1 = 3
level_of dma_done = 4
level_of uart_rx = 4

set_lines_lem :
    (s : IrqSource) (on : Bool) (lines : ℕ → Bool) (l : ℕ)
    → set_lines Interrupt.routing s on lines l ≡ (if l == level_of s then on else lines l)
unfolding set_lines
set_lines_lem gpu_vblank on lines l = ground arith
set_lines_lem cdrom_data on lines l = ground arith
set_lines_lem cdrom_done on lines l = ground arith
set_lines_lem timer0 on lines l = ground arith
set_lines_lem timer1 on lines l = ground arith
set_lines_lem dma_done on lines l = ground arith
set_lines_lem uart_rx on lines l = ground arith

lines-scan_routes :
    (rs : List Route) (l : ℕ) (c : InterruptController) → (scan_routes rs l c).lines ≡ c.lines
unfolding scan_routes raise
lines-scan_routes [] l c = refl
lines-scan_routes (r ∷ rs) l c = lines-scan_routes rs l _ ∙ one
  where
    one : (if r.level == l then raise r r.target c else c).lines ≡ c.lines
    one = ground arith

lines-scan_levels : (ls : List ℕ) (c : InterruptController) → (scan_levels ls c).lines ≡ c.lines
unfolding scan_levels scan_level
lines-scan_levels [] c = refl
lines-scan_levels (l ∷ ls) c = lines-scan_levels ls (scan_level c l) ∙ one
  where
    one : (scan_level c l).lines ≡ c.lines
    one = ground (arith, lines-scan_routes Interrupt.routing l c)

lines-update_pending : (c : InterruptController) → (update_pending c).lines ≡ c.lines
unfolding update_pending
lines-update_pending c = lines-scan_levels _ _

-- Asserting a source sets the line of its level, and no other.
pub lines-assert_irq :
    (s : IrqSource) (c : InterruptController) (l : ℕ)
    → (assert_irq s c).lines l ≡ (if l == level_of s then true else c.lines l)
unfolding assert_irq
lines-assert_irq s c l = ap (λ f. f l) (lines-update_pending _) ∙ set_lines_lem s true c.lines l

pub lines-deassert_irq :
    (s : IrqSource) (c : InterruptController) (l : ℕ)
    → (deassert_irq s c).lines l ≡ (if l == level_of s then false else c.lines l)
unfolding deassert_irq
lines-deassert_irq s c l = ap (λ f. f l) (lines-update_pending _) ∙ set_lines_lem s false c.lines l

pub assert_irq-IsSettled : (s : IrqSource) (c : InterruptController) → IsSettled (assert_irq s c)
unfolding assert_irq
assert_irq-IsSettled s c = update_pending-IsSettled _

pub deassert_irq-IsSettled :
    (s : IrqSource) (c : InterruptController) → IsSettled (deassert_irq s c)
unfolding deassert_irq
deassert_irq-IsSettled s c = update_pending-IsSettled _
