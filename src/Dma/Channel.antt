-- ===== src/Dma/Channel.antt =====
-- The invariant of a channel, and what one tick does to it.
use monte_lauro_ml_cd32_ppc.Base.{
  ℕ, zero, suc, ◌+◌, ◌-◌, ◌*◌, ◌/◌, ◌%◌, ◌^◌, ◌≤◌, ◌<◌, min, List, [], ◌∷◌, u32, set_bit, clear_bit,
  ◌≡◌, arith, ◌∙◌, ◌≢◌, eq→==, ne→==,
}
use monte_lauro_ml_cd32_ppc.Dma.{
  DmaChannelId, DmaTransfer, copy, done, bursting, finished, DmaChannel, new_channel, advance,
  copy_words, words_in_burst, tick_channel, write_channel,
}

-- A burst is 64 bytes and holds whole words, so that no subtraction of `tick` wraps.
pub record IsValid (ch : DmaChannel) : Type 0 where
  pub burst_64 : ch.burst_size ≡ 64
  pub in_burst : ch.bytes_this_burst ≤ 64
  pub whole_words : ch.bytes_this_burst % 4 ≡ 0

new_channel-IsValid : IsValid new_channel
unfolding new_channel
new_channel-IsValid = ground arith

-- `n` copies of a word, from `src` and to `dst` on, both going up by 4 with wrap-around.
abbrev pub copies : DmaChannelId → ℕ → ℕ → ℕ → List DmaTransfer
copies id src dst zero = []
copies id src dst (suc n) = copy id src dst 4 ∷ copies id (u32 (src + 4)) (u32 (dst + 4)) n

-- the channel after `n` words
abbrev pub moved : ℕ → DmaChannel → DmaChannel
moved n ch = record ch {
  src_addr = u32 (ch.src_addr + 4 * n);
  dst_addr = u32 (ch.dst_addr + 4 * n);
  transfer_size = ch.transfer_size - 4 * n;
  bytes_this_burst = ch.bytes_this_burst + 4 * n;
}

copy_words_lem :
    (n : ℕ) (id : DmaChannelId) (ch : DmaChannel)
    → ch.src_addr < 2 ^ 32
    → ch.dst_addr < 2 ^ 32
    → ch.bytes_this_burst + 4 * n < 2 ^ 32
    → copy_words n id ch ≡ (moved n ch, copies id ch.src_addr ch.dst_addr n)
unfolding copy_words advance
copy_words_lem zero id ch hs hd hb = ground arith
copy_words_lem (suc n) id ch hs hd hb = ground (arith, copy_words_lem n id (advance ch))

abbrev pub words_left : DmaChannel → ℕ
words_left ch = min (64 - ch.bytes_this_burst) ch.transfer_size / 4

-- Within a valid channel no subtraction wraps.
words_in_burst-lem : (ch : DmaChannel) → IsValid ch → words_in_burst ch ≡ words_left ch
words_in_burst-lem ch v = omega arith

-- A tick in the middle of a burst copies the words that are left of it.
pub tick_channel-words :
    (id : DmaChannelId) (ch : DmaChannel)
    → IsValid ch
    → ch.state ≡ bursting
    → ch.src_addr < 2 ^ 32
    → ch.dst_addr < 2 ^ 32
    → 0 < words_left ch
    → tick_channel id ch
      ≡ (moved (words_left ch) ch, copies id ch.src_addr ch.dst_addr (words_left ch))
unfolding tick_channel
tick_channel-words id ch v s hs hd h =
    enters ∙ copy_words_lem (words_left ch) id ch hs hd (omega arith)
  where
    enters : tick_channel id ch ≡ copy_words (words_left ch) id ch
    enters = simp (s, words_in_burst-lem ch v, ne→== (words_left ch) 0 (omega arith))

-- A tick between two bursts opens the next one.
pub tick_channel-reset :
    (id : DmaChannelId) (ch : DmaChannel)
    → IsValid ch
    → ch.state ≡ bursting
    → words_left ch ≡ 0
    → ch.transfer_size ≢ 0
    → tick_channel id ch ≡ (record ch { bytes_this_burst = 0 }, [])
unfolding tick_channel
tick_channel-reset id ch v s h ne =
    simp (s, words_in_burst-lem ch v, eq→== (words_left ch) 0 h, ne→== ch.transfer_size 0 ne)

-- A tick with nothing left reports the end.
pub tick_channel-done :
    (id : DmaChannelId) (ch : DmaChannel)
    → IsValid ch
    → ch.state ≡ bursting
    → ch.transfer_size ≡ 0
    → tick_channel id ch
      ≡ (record ch { state = finished; status = set_bit 1 (clear_bit 0 ch.status) }, done id ∷ [])
unfolding tick_channel
tick_channel-done id ch v s h =
    simp (
      s,
      words_in_burst-lem ch v,
      eq→== (words_left ch) 0 (omega arith),
      eq→== ch.transfer_size 0 h,
    )

-- A channel that is not bursting does nothing.
tick_channel-quiet :
    (id : DmaChannelId) (ch : DmaChannel) → ch.state ≢ bursting → tick_channel id ch ≡ (ch, [])
unfolding tick_channel
tick_channel-quiet id ch h = ground arith

-- Every write to a channel's registers keeps the invariant.
write_channel-IsValid :
    (off val : ℕ) (ch : DmaChannel) → IsValid ch → IsValid (write_channel off val ch)
unfolding write_channel
write_channel-IsValid off val ch v = ground arith

-- A tick keeps a channel valid whose addresses fit in 32 bits.
pub tick_channel-IsValid :
    (id : DmaChannelId) (ch : DmaChannel)
    → IsValid ch
    → ch.src_addr < 2 ^ 32
    → ch.dst_addr < 2 ^ 32
    → IsValid (tick_channel id ch).0
unfolding tick_channel
tick_channel-IsValid id ch v hs hd = ground (arith, copy_words_lem (words_in_burst ch) id ch)
