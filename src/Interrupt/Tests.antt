-- ===== src/Interrupt/Tests.antt =====
-- Runs of the interrupt controller, and its theorems at concrete requests.
use monte_lauro_ml_cd32_ppc.Base.{some, ◌≡◌, refl, [], ◌∷◌, List}
use monte_lauro_ml_cd32_ppc.Interrupt.{
  timer0, dma_done, uart_rx, new, assert_irq, deassert_irq, cf_irq_pending, update_pending,
  scan_levels, scan_level, scan_routes, raise, set_lines,
}
use monte_lauro_ml_cd32_ppc.Interrupt.Routing.{Request, assert, deassert, serve_all}

abbrev requests : List Request
requests = assert timer0 ∷ assert uart_rx ∷ deassert dma_done ∷ []

after_requests : cf_irq_pending (serve_all requests new) ≡ some (3, 0x6C)
unfolding cf_irq_pending assert_irq deassert_irq update_pending scan_levels scan_level scan_routes
    raise set_lines new
after_requests = refl
