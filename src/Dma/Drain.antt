-- ===== src/Dma/Drain.antt =====
-- A started transfer of whole words runs to its end: all of its words are copied, in order, and
-- the end is reported once.
use Prim.Native.Nat.add
use monte_lauro_ml_cd32_ppc.Base.{
  ℕ, zero, suc, ◌+◌, ◌-◌, ◌*◌, ◌^◌, ◌≤◌, ◌<◌, List, [], ◌∷◌, ◌++◌, u32, set_bit, clear_bit, ◌≡◌,
  arith, ap, ap₂, sym, subst, ◌∙◌, append_assoc,
}
use monte_lauro_ml_cd32_ppc.Dma.{
  DmaChannelId, DmaTransfer, copy, done, bursting, finished, DmaChannel, tick_channel,
}
use monte_lauro_ml_cd32_ppc.Dma.Channel.{
  IsValid, copies, moved, tick_channel-words, tick_channel-reset, tick_channel-done,
}

-- `k` ticks of a channel, with all that they emit.
abbrev pub drain : ℕ → DmaChannelId → DmaChannel → DmaChannel × List DmaTransfer
drain zero id ch = (ch, [])
drain (suc k) id ch =
    let (ch', now) = tick_channel id ch in
    let (ch'', later) = drain k id ch' in (ch'', now ++ later)

copies-add :
    (id : DmaChannelId) (src dst m n : ℕ)
    → src < 2 ^ 32
    → dst < 2 ^ 32
    → copies id src dst (m + n)
      ≡ copies id src dst m ++ copies id (u32 (src + 4 * m)) (u32 (dst + 4 * m)) n
copies-add id src dst zero n hs hd = ground arith
copies-add id src dst (suc m) n hs hd =
    ap (copies id src dst) (add.suc m n)
    ∙ ap (◌∷◌ (copy id src dst 4)) (
        copies-add id (u32 (src + 4)) (u32 (dst + 4)) m n (omega arith) (omega arith)
        ∙ ap₂ (λ s d. copies id (u32 (src + 4)) (u32 (dst + 4)) m ++ copies id s d n) (omega arith)
            (omega arith))

-- A channel that is about to begin a burst of a transfer of `w` words.
pub record Opens (w : ℕ) (ch : DmaChannel) : Type 0 where
  pub valid : IsValid ch
  pub runs : ch.state ≡ bursting
  pub fresh : ch.bytes_this_burst ≡ 0
  pub size : ch.transfer_size ≡ 4 * w
  pub src_word : ch.src_addr < 2 ^ 32
  pub dst_word : ch.dst_addr < 2 ^ 32

-- the end of a transfer of `w` words whose last burst had `b` bytes
abbrev closed : ℕ → ℕ → DmaChannel → DmaChannel
closed w b ch = record ch {
  src_addr = u32 (ch.src_addr + 4 * w);
  dst_addr = u32 (ch.dst_addr + 4 * w);
  transfer_size = 0;
  status = set_bit 1 (clear_bit 0 ch.status);
  state = finished;
  bytes_this_burst = b;
}

-- the channel after a whole burst of 16 words and the tick that opens the next one
abbrev reopened : DmaChannel → DmaChannel
reopened ch = record ch {
  src_addr = u32 (ch.src_addr + 64);
  dst_addr = u32 (ch.dst_addr + 64);
  transfer_size = ch.transfer_size - 64;
  bytes_this_burst = 0;
}

drain_burst :
    (id : DmaChannelId) (w : ℕ) (ch : DmaChannel)
    → Opens (16 + w) ch
    → 0 < w
    → drain 2 id ch ≡ (reopened ch, copies id ch.src_addr ch.dst_addr 16)
drain_burst id w ch o h =
    ground (arith, tick_channel-words id ch, tick_channel-reset id (moved 16 ch))

reopened-Opens : (w : ℕ) (ch : DmaChannel) → Opens (16 + w) ch → 0 < w → Opens w (reopened ch)
reopened-Opens w ch o h = ground arith

drain_last :
    (id : DmaChannelId) (w : ℕ) (ch : DmaChannel)
    → Opens w ch
    → 0 < w
    → w ≤ 16
    → drain 2 id ch ≡ (closed w (4 * w) ch, copies id ch.src_addr ch.dst_addr w ++ (done id ∷ []))
drain_last id w ch o h1 h2 =
    ground (arith, tick_channel-words id ch, tick_channel-done id (moved w ch))

-- goes on for `k` ticks
abbrev then_drain : ℕ → DmaChannelId → DmaChannel × List DmaTransfer → DmaChannel × List DmaTransfer
then_drain k id r = ((drain k id r.0).0, r.1 ++ (drain k id r.0).1)

drain-add :
    (j k : ℕ) (id : DmaChannelId) (ch : DmaChannel)
    → drain (j + k) id ch ≡ then_drain k id (drain j id ch)
drain-add zero k id ch = ap (λ n. drain n id ch) (add.zero k)
drain-add (suc j) k id ch =
    ap (λ n. drain n id ch) (add.suc j k)
    ∙ ap (λ (r : DmaChannel × List DmaTransfer). (r.0, (tick_channel id ch).1 ++ r.1))
        (drain-add j k id (tick_channel id ch).0)
    ∙ ap (λ l. ((drain k id (drain (suc j) id ch).0).0, l))
        (sym (
          append_assoc (tick_channel id ch).1 (drain j id (tick_channel id ch).0).1
            (drain k id (drain (suc j) id ch).0).1))

closed_on :
    (k w : ℕ) (ch : DmaChannel)
    → closed (16 * k + w) (4 * w) (reopened ch) ≡ closed (16 * suc k + w) (4 * w) ch
closed_on k w ch = ground arith

-- A channel that opens a transfer of 16 k + w words, with 1 ≤ w ≤ 16, finishes it in 2 k + 2 ticks:
-- it emits a copy of each word in order, the addresses going up by 4, then the end of its
-- transfer, and it stands with nothing left, finished, the busy bit cleared and the done bit set.
pub drain_complete :
    (k w : ℕ) (id : DmaChannelId) (ch : DmaChannel)
    → Opens (16 * k + w) ch
    → 0 < w
    → w ≤ 16
    → drain (2 * k + 2) id ch ≡ (
      closed (16 * k + w) (4 * w) ch,
      copies id ch.src_addr ch.dst_addr (16 * k + w) ++ (done id ∷ []),
    )
drain_complete zero w id ch o h1 h2 =
    drain_last id w ch (subst (λ n. Opens n ch) (no_more w) o) h1 h2
    ∙ ap (λ n. (closed n (4 * w) ch, copies id ch.src_addr ch.dst_addr n ++ (done id ∷ [])))
        (sym (no_more w))
  where
    no_more : (w : ℕ) → 16 * 0 + w ≡ w
    no_more w = omega arith
drain_complete (suc k) w id ch o h1 h2 =
    ap (λ n. drain n id ch) two_more
    ∙ drain-add 2 (2 * k + 2) id ch
    ∙ ap (λ (r : DmaChannel × List DmaTransfer). then_drain (2 * k + 2) id r)
        (drain_burst id (16 * k + w) ch o' (omega arith))
    ∙ (ap
          (λ (r : DmaChannel × List DmaTransfer).
            (r.0, copies id ch.src_addr ch.dst_addr 16 ++ r.1))
          (drain_complete k w id (reopened ch) (reopened-Opens (16 * k + w) ch o' (omega arith)) h1
            h2)
        ∙ ap₂ (λ c l. (c, l)) (closed_on k w ch)
            (sym (
                append_assoc (copies id ch.src_addr ch.dst_addr 16)
                  (copies id (u32 (ch.src_addr + 64)) (u32 (ch.dst_addr + 64)) (16 * k + w))
                  (done id ∷ []))
              ∙ ap (λ l. l ++ (done id ∷ []))
                  (sym (
                    ap (copies id ch.src_addr ch.dst_addr) sixteen_more
                    ∙ copies-add id ch.src_addr ch.dst_addr 16 (16 * k + w) o.src_word
                        o.dst_word))))
  where
    two_more : 2 * suc k + 2 ≡ 2 + (2 * k + 2)
    two_more = omega arith

    sixteen_more : 16 * suc k + w ≡ 16 + (16 * k + w)
    sixteen_more = omega arith

    o' : Opens (16 + (16 * k + w)) ch
    o' = subst (λ n. Opens n ch) sixteen_more o
