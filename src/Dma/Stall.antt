-- ===== src/Dma/Stall.antt =====
-- A transfer whose size is no multiple of four never ends.
use monte_lauro_ml_cd32_ppc.Base.{
  ℕ, zero, suc, ◌+◌, ◌%◌, ◌^◌, ◌<◌, Bool, true, false, List, [], ◌∷◌, ◌++◌, ◌≡◌, refl, arith, ◌≢◌,
  ◌⊎◌, inl, inr, u32,
}
use monte_lauro_ml_cd32_ppc.Dma.{
  DmaChannelId, DmaTransfer, copy, done, bursting, DmaChannel, tick_channel,
}
use monte_lauro_ml_cd32_ppc.Dma.Channel.{
  IsValid, copies, words_left, tick_channel-words, tick_channel-reset,
}
use monte_lauro_ml_cd32_ppc.Dma.Drain.{drain}

-- No end of a transfer is among these.
abbrev pub no_done : List DmaTransfer → Bool
no_done [] = true
no_done (copy id src dst size ∷ ts) = no_done ts
no_done (done id ∷ ts) = false

pub record IsRagged (ch : DmaChannel) : Type 0 where
  pub valid : IsValid ch
  pub runs : ch.state ≡ bursting
  pub odd_size : ch.transfer_size % 4 ≢ 0
  pub src_word : ch.src_addr < 2 ^ 32
  pub dst_word : ch.dst_addr < 2 ^ 32

no_done-copies : (id : DmaChannelId) (src dst n : ℕ) → no_done (copies id src dst n) ≡ true
no_done-copies id src dst zero = refl
no_done-copies id src dst (suc n) = no_done-copies id (u32 (src + 4)) (u32 (dst + 4)) n

no_done-append :
    (xs ys : List DmaTransfer) → no_done xs ≡ true → no_done ys ≡ true → no_done (xs ++ ys) ≡ true
no_done-append [] ys p q = q
no_done-append (copy id src dst size ∷ xs) ys p q = no_done-append xs ys p q
no_done-append (done id ∷ xs) ys p q = p

zero_or_pos : (n : ℕ) → (n ≡ 0) ⊎ (0 < n)
zero_or_pos n = ground arith

tick_channel-IsRagged :
    (id : DmaChannelId) (ch : DmaChannel)
    → IsRagged ch
    → IsRagged (tick_channel id ch).0 × (no_done (tick_channel id ch).1 ≡ true)
tick_channel-IsRagged id ch r = elim (zero_or_pos (words_left ch)) [
  | inl e ↦ ground (arith, tick_channel-reset id ch)
  | inr h ↦
      ground
        (arith, tick_channel-words id ch, no_done-copies id ch.src_addr ch.dst_addr (words_left ch))
]

-- However often a channel ticks that bursts over a size which is no multiple of four, with bursts of 64
-- bytes, of which it has made up to 64 in whole words, and addresses that fit in 32 bits, it is still
-- bursting, and it has never reported the end of its transfer.
pub ragged_never_done :
    (k : ℕ) (id : DmaChannelId) (ch : DmaChannel)
    → IsRagged ch
    → ((drain k id ch).0.state ≡ bursting) × (no_done (drain k id ch).1 ≡ true)
ragged_never_done zero id ch r = (r.runs, refl)
ragged_never_done (suc k) id ch r =
    let (r', now) = tick_channel-IsRagged id ch r in
    let later = ragged_never_done k id (tick_channel id ch).0 r' in
    (
      later.0,
      no_done-append (tick_channel id ch).1 (drain k id (tick_channel id ch).0).1 now later.1,
    )
