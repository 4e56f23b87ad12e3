-- ===== src/Interrupt/Routing.antt =====
-- What the controller promises the two processors over any history of requests.
use monte_lauro_ml_cd32_ppc.Base.{
  ℕ, Bool, true, false, some, ◌≡◌, arith, if◌then◌else◌, ◌||◌, ◌==◌, [], ◌∷◌, List, ◌≢◌,
}
use monte_lauro_ml_cd32_ppc.Interrupt.{
  IrqSource, gpu_vblank, cdrom_data, cdrom_done, timer0, timer1, dma_done, uart_rx,
  InterruptController, assert_irq, deassert_irq, ppc_irq_pending, cf_irq_pending,
}
use monte_lauro_ml_cd32_ppc.Interrupt.Pending.{
  level_of, lines-assert_irq, lines-deassert_irq, assert_irq-IsSettled, deassert_irq-IsSettled,
}

-- A request of a device, and the controller after a history of them, oldest first.
pub data Request : Type 0 where
  assert : IrqSource → Request
  deassert : IrqSource → Request

abbrev serve : Request → InterruptController → InterruptController
serve (assert s) c = assert_irq s c
serve (deassert s) c = deassert_irq s c

abbrev pub serve_all : List Request → InterruptController → InterruptController
serve_all [] c = c
serve_all (r ∷ rs) c = serve_all rs (serve r c)

-- The abstract view: whether the last request on a level, if any, was an assertion.
abbrev held_after : List Request → (ℕ → Bool) → ℕ → Bool
held_after [] held l = held l
held_after (assert s ∷ rs) held l = held_after rs (λ k. if k == level_of s then true else held k) l
held_after (deassert s ∷ rs) held l =
    held_after rs (λ k. if k == level_of s then false else held k) l

-- Lines are kept by level and not by source, so asserting any source, the two that the table
-- routes to the ColdFire included, makes an interrupt of the PPC pending.
pub assert_irq-reaches-ppc :
    (s : IrqSource) (c : InterruptController) → ppc_irq_pending (assert_irq s c) ≡ true
unfolding ppc_irq_pending
assert_irq-reaches-ppc s c =
    let set = lines-assert_irq s c (level_of s) in
    let settled = (assert_irq-IsSettled s c).ppc_settled in go s (assert_irq s c) set settled
  where
    go :
        (s : IrqSource) (d : InterruptController)
        → d.lines (level_of s) ≡ (if level_of s == level_of s then true else c.lines (level_of s))
        → d.pending_ppc ≡ (d.lines 1 || (d.lines 2 || (d.lines 3 || d.lines 4)))
        → d.pending_ppc ≡ true
    go gpu_vblank d p q = ground arith
    go cdrom_data d p q = ground arith
    go cdrom_done d p q = ground arith
    go timer0 d p q = ground arith
    go timer1 d p q = ground arith
    go dma_done d p q = ground arith
    go uart_rx d p q = ground arith

-- Releasing one source of a shared level withdraws the request of the other: whatever was
-- asserted before, after `deassert_irq` of the DMA no request of the UART is seen by the ColdFire
-- at level 4, and after one of the CD-ROM's data line its done line is low.
deassert_irq-withdraws-sibling :
    (c : InterruptController)
    → ((deassert_irq dma_done (assert_irq uart_rx c)).lines 4 ≡ false)
      × ((v : ℕ) → cf_irq_pending (deassert_irq dma_done (assert_irq uart_rx c)) ≢ some (4, v))
      × ((deassert_irq cdrom_data (assert_irq cdrom_done c)).lines 2 ≡ false)
unfolding cf_irq_pending
deassert_irq-withdraws-sibling c =
    let low = lines-deassert_irq dma_done (assert_irq uart_rx c) 4 in
    let settled = deassert_irq-IsSettled dma_done (assert_irq uart_rx c) in
    (low, λ v e. ground (arith, settled), lines-deassert_irq cdrom_data (assert_irq cdrom_done c) 2)
