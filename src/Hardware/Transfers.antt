-- ===== src/Hardware/Transfers.antt =====
-- What the machine does with the transfers of a DMA channel: src/hardware.rs, the loop over
-- `dma.tick()`.
use monte_lauro_ml_cd32_ppc.Base.{
  ℕ, ◌+◌, ◌*◌, ◌<◌, ◌≤◌, List, [], ◌∷◌, ◌++◌, ◌≡◌, ◌≢◌, ◌∙◌, ap, refl, arith, ◌⊎◌, true, false,
  test_bit, sym, subst,
}
use monte_lauro_ml_cd32_ppc.Memory.{}
use monte_lauro_ml_cd32_ppc.Interrupt.Routing.{assert_irq-reaches-ppc}
use monte_lauro_ml_cd32_ppc.Dma.{DmaChannelId, DmaTransfer, DmaChannel, done, write_channel}
use monte_lauro_ml_cd32_ppc.Dma.Channel.{copies, IsValid as ChannelIsValid}
use monte_lauro_ml_cd32_ppc.Dma.Drain.{drain}
use monte_lauro_ml_cd32_ppc.Dma.Registers.{start_then_drain}
use monte_lauro_ml_cd32_ppc.Bus.Access.{ppc_irq_pending}
use monte_lauro_ml_cd32_ppc.Bus.{Bus}
use monte_lauro_ml_cd32_ppc.Hardware.{transfer, transfer_all, done_source}
use monte_lauro_ml_cd32_ppc.Hardware.Copies.{HoldsBytes, Moved, transfer_all-copies}

transfer_all-append :
    (xs ys : List DmaTransfer) (b : Bus)
    → transfer_all (xs ++ ys) b ≡ transfer_all ys (transfer_all xs b)
unfolding transfer_all
transfer_all-append [] ys b = refl
transfer_all-append (x ∷ xs) ys b = transfer_all-append xs ys (transfer x b)

-- The end of a transfer leaves the memory alone and makes an interrupt of the PPC pending.
finish :
    (id : DmaChannelId) (b : Bus)
    → ((transfer_all (done id ∷ []) b).mem ≡ b.mem)
      × (ppc_irq_pending (transfer_all (done id ∷ []) b) ≡ true)
unfolding transfer_all transfer ppc_irq_pending
finish id b = (refl, assert_irq-reaches-ppc (done_source id) b.intc)

-- Writing a control word with bit 0 set and bit 1 clear to a valid channel whose source,
-- destination and size are set, the size 4 (16 k + w) bytes with 1 ≤ w ≤ 16, and the machine
-- carrying out what the channel asks for in the 2 k + 2 ticks from then on, copies the bytes of the
-- source to the destination and changes no other byte of the memory, and an interrupt of the PPC
-- is pending; where both ranges lie below the mailbox and apart, in a map with its sizes and with
-- bytes in its unified RAM.
pub dma_transfer :
    (k w val : ℕ) (id : DmaChannelId) (ch : DmaChannel) (b : Bus)
    → ChannelIsValid ch
    → ch.src_addr ≢ 0
    → ch.dst_addr ≢ 0
    → ch.transfer_size ≡ 4 * (16 * k + w)
    → 0 < w
    → w ≤ 16
    → test_bit 0 val ≡ true
    → test_bit 1 val ≡ false
    → HoldsBytes b.mem
    → ch.src_addr + ch.transfer_size ≤ 0x0100_0000
    → ch.dst_addr + ch.transfer_size ≤ 0x0100_0000
    → (ch.src_addr + ch.transfer_size ≤ ch.dst_addr)
      ⊎ (ch.dst_addr + ch.transfer_size ≤ ch.src_addr)
    → let b' = transfer_all (drain (2 * k + 2) id (write_channel 0x0C val ch)).1 b in
      Moved ch.transfer_size ch.src_addr ch.dst_addr b.mem b'.mem × (ppc_irq_pending b' ≡ true)
dma_transfer k w val id ch b v hs hd size w0 w16 b0 b1 h s d apart =
    let n = 16 * k + w in
    let asked =
      (start_then_drain k w val id ch v hs hd (omega arith) (omega arith) size w0 w16 b0 b1).0 in
    let (m', e, moved) =
      transfer_all-copies n ch.src_addr ch.dst_addr id b h (omega arith) (omega arith)
        (omega arith) in
    let end = finish id (record b { mem = m' }) in
    let run =
      ap (λ ts. transfer_all ts b) asked
      ∙ transfer_all-append (copies id ch.src_addr ch.dst_addr n) (done id ∷ []) b
      ∙ ap (transfer_all (done id ∷ [])) e in
    let bytes : n * 4 ≡ ch.transfer_size = omega arith in
    (
      subst (Moved ch.transfer_size ch.src_addr ch.dst_addr b.mem)
          (sym (ap (λ x. x.mem) run ∙ end.0))
          (subst (λ l. Moved l ch.src_addr ch.dst_addr b.mem m') bytes moved),
      ap ppc_irq_pending run ∙ end.1,
    )
