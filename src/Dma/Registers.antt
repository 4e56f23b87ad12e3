-- ===== src/Dma/Registers.antt =====
-- The register window of the DMA controller.
use monte_lauro_ml_cd32_ppc.Base.{
  ℕ, ◌+◌, ◌*◌, ◌/◌, ◌%◌, ◌^◌, ◌≤◌, ◌<◌, ◌≡◌, ◌≢◌, arith, ap, ap₂, ◌∙◌, List, [], ◌++◌, ◌∷◌,
  test_bit, true, false, ◌⊎◌,
}
use monte_lauro_ml_cd32_ppc.Dma.{
  DmaChannelId, DmaTransfer, DmaController, DmaChannel, finished, done, write_reg, read_reg,
  read_channel, write_channel,
}
use monte_lauro_ml_cd32_ppc.Dma.Channel.{IsValid, copies}
use monte_lauro_ml_cd32_ppc.Dma.Drain.{drain, Opens, drain_complete}

-- What is written to the source, destination or size register of a channel, or to one of the
-- four words from 0x40 on, is read back from it, at any byte address of such a word in the
-- second case.
read_reg-write_reg :
    (addr val : ℕ) (c : DmaController)
    → ((addr % 256 < 0x40) × (addr % 16 % 4 ≡ 0) × (addr % 16 < 12))
      ⊎ ((0x40 ≤ addr % 256) × (addr % 256 < 0x50))
    → read_reg addr (write_reg addr val c) ≡ val
unfolding read_reg write_reg read_channel write_channel
read_reg-write_reg addr val c h = ground arith

-- A write to the registers of one channel leaves the other channels alone.
write_reg-other :
    (addr val i : ℕ) (c : DmaController)
    → addr % 256 / 16 ≢ i
    → (write_reg addr val c).channels i ≡ c.channels i
unfolding write_reg
write_reg-other addr val i c h = ground arith

-- a control word that starts a channel
started :
    (n val : ℕ) (ch : DmaChannel)
    → IsValid ch
    → ch.src_addr ≢ 0
    → ch.dst_addr ≢ 0
    → ch.src_addr < 2 ^ 32
    → ch.dst_addr < 2 ^ 32
    → ch.transfer_size ≡ 4 * n
    → 0 < n
    → test_bit 0 val ≡ true
    → test_bit 1 val ≡ false
    → Opens n (write_channel 0x0C val ch)
      × ((write_channel 0x0C val ch).src_addr ≡ ch.src_addr)
      × ((write_channel 0x0C val ch).dst_addr ≡ ch.dst_addr)
unfolding write_channel
started n val ch v hs hd ws wd size h b0 b1 = ground arith

-- Writing a control word with bit 0 set and bit 1 clear to a valid channel whose source,
-- destination and size are set, the addresses below 2 ^ 32 and the size 4 (16 k + w) bytes with
-- 1 ≤ w ≤ 16, starts a transfer that in 2 k + 2 ticks copies every word in order, reports its
-- end and leaves the channel finished with nothing to transfer.
pub start_then_drain :
    (k w val : ℕ) (id : DmaChannelId) (ch : DmaChannel)
    → IsValid ch
    → ch.src_addr ≢ 0
    → ch.dst_addr ≢ 0
    → ch.src_addr < 2 ^ 32
    → ch.dst_addr < 2 ^ 32
    → ch.transfer_size ≡ 4 * (16 * k + w)
    → 0 < w
    → w ≤ 16
    → test_bit 0 val ≡ true
    → test_bit 1 val ≡ false
    → ((drain (2 * k + 2) id (write_channel 0x0C val ch)).1
        ≡ copies id ch.src_addr ch.dst_addr (16 * k + w) ++ (done id ∷ []))
      × ((drain (2 * k + 2) id (write_channel 0x0C val ch)).0.state ≡ finished)
      × ((drain (2 * k + 2) id (write_channel 0x0C val ch)).0.transfer_size ≡ 0)
start_then_drain k w val id ch v hs hd ws wd size h1 h2 b0 b1 =
    let (o, es, ed) = started (16 * k + w) val ch v hs hd ws wd size (omega arith) b0 b1 in
    let e = drain_complete k w id (write_channel 0x0C val ch) o h1 h2 in
    (
      ap (λ (r : DmaChannel × List DmaTransfer). r.1) e
          ∙ ap₂ (λ s d. copies id s d (16 * k + w) ++ (done id ∷ [])) es ed,
      ap (λ (r : DmaChannel × List DmaTransfer). r.0.state) e,
      ap (λ (r : DmaChannel × List DmaTransfer). r.0.transfer_size) e,
    )
