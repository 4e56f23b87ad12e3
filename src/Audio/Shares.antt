-- ===== src/Audio/Shares.antt =====
-- The shares of the channels in the mix, and that within their volumes nothing wraps in their sums.
use monte_lauro_ml_cd32_ppc.Base.{
  ℕ, zero, suc, ◌+◌, ◌-◌, ◌*◌, ◌/◌, ◌^◌, ◌≤◌, ◌<◌, Bool, true, false, if◌then◌else◌, update, ◌≡◌,
  refl, ◌∙◌, ap, ap₂, arith, ne→==,
}
use monte_lauro_ml_cd32_ppc.Base.Int.{ℤ, pos, negsuc, sub_ℕ, ◌+ℤ◌, ◌*ℤ◌, i32, magnitude}
use monte_lauro_ml_cd32_ppc.Base.Int.Magnitude.{i32-exact, magnitude-plus, times-le}
use monte_lauro_ml_cd32_ppc.Audio.{
  AudioChannel, div_trunc, read_sample, panned, mix_channel, mix_from,
}

magnitude-div_trunc : (x : ℤ) (k : ℕ) → magnitude (div_trunc x k) ≡ magnitude x / k
magnitude-div_trunc (pos n) k = ground arith
magnitude-div_trunc (negsuc n) k = ground arith

abbrev sample_of : AudioChannel → ℤ
sample_of ch = ch.fifo ch.rd_ptr

-- A channel in its documented ranges: a sample of 16 bits, a volume up to 1024, a pan up to 255.
pub record ChannelFits (ch : AudioChannel) : Type 0 where
  pub sample : magnitude (sample_of ch) ≤ 2 ^ 15
  pub volume : ch.volume ≤ 1024
  pub pan : ch.pan ≤ 255

-- The exact share of a channel on the side of weight `w` out of 255: the sample by its volume out of
-- 1024, by the weight, each quotient rounded towards zero.
unfoldable pub share : ℕ → AudioChannel → ℤ
share w ch = div_trunc (pos w *ℤ div_trunc (sample_of ch *ℤ pos ch.volume) 1024) 255

abbrev pub left_weight : AudioChannel → ℕ
left_weight ch = 255 - ch.pan

abbrev pub right_weight : AudioChannel → ℕ
right_weight ch = ch.pan

-- The shares of the enabled channels among the `n` from number `i` on, added to `acc`.
unfoldable pub shares : (AudioChannel → ℕ) → ℕ → ℕ → (ℕ → AudioChannel) → ℤ → ℤ
shares weight zero i chs acc = acc
shares weight (suc n) i chs acc =
    shares weight n (i + 1) chs
      (if (chs i).enabled then acc +ℤ share (weight (chs i)) (chs i) else acc)

scaled-le :
    (ch : AudioChannel) → ChannelFits ch → magnitude (sample_of ch *ℤ pos ch.volume) ≤ 2 ^ 25
scaled-le ch h =
    times-le (sample_of ch) (pos ch.volume) (2 ^ 15) 1024 h.sample (omega (arith, h.volume))

weighed-le :
    (w : ℕ) (ch : AudioChannel)
    → ChannelFits ch
    → w ≤ 255
    → magnitude (pos w *ℤ div_trunc (sample_of ch *ℤ pos ch.volume) 1024) ≤ 255 * 2 ^ 15
weighed-le w ch h k =
    times-le (pos w) (div_trunc (sample_of ch *ℤ pos ch.volume) 1024) 255 (2 ^ 15)
      (omega (arith, k))
      (rw (magnitude-div_trunc (sample_of ch *ℤ pos ch.volume) 1024)
        (omega (arith, scaled-le ch h)))

share-le : (w : ℕ) (ch : AudioChannel) → ChannelFits ch → w ≤ 255 → magnitude (share w ch) ≤ 2 ^ 15
unfolding share
share-le w ch h k =
    rw (magnitude-div_trunc (pos w *ℤ div_trunc (sample_of ch *ℤ pos ch.volume) 1024) 255)
      (omega (arith, weighed-le w ch h k))

left_pos : (n : ℕ) → n ≤ 255 → sub_ℕ 255 n ≡ pos (255 - n)
left_pos n h = ground arith

panned-shares :
    (ch : AudioChannel)
    → ChannelFits ch
    → panned ch (sample_of ch) ≡ (share (left_weight ch) ch, share (right_weight ch) ch)
unfolding panned share
panned-shares ch h =
    let s_vol = div_trunc (sample_of ch *ℤ pos ch.volume) 1024 in
    let scaled = i32-exact (sample_of ch *ℤ pos ch.volume) (omega (arith, scaled-le ch h)) in
    let left =
      i32-exact (pos (255 - ch.pan) *ℤ s_vol)
        (omega (arith, weighed-le (255 - ch.pan) ch h (omega arith))) in
    let right = i32-exact (pos ch.pan *ℤ s_vol) (omega (arith, weighed-le ch.pan ch h h.pan)) in
    rw scaled
      (rw (left_pos ch.pan h.pan) (ap₂ (λ l r. (div_trunc l 255, div_trunc r 255)) left right))

-- the sum of a side after a channel
abbrev after_channel : (AudioChannel → ℕ) → AudioChannel → ℤ → ℤ
after_channel weight ch acc = if ch.enabled then acc +ℤ share (weight ch) ch else acc

if-magnitude-le :
    (on : Bool) (x y : ℤ) (n : ℕ)
    → magnitude x ≤ n
    → magnitude y ≤ n
    → magnitude (if on then x else y) ≤ n
if-magnitude-le true x y n h k = h
if-magnitude-le false x y n h k = k

after_channel-le :
    (weight : AudioChannel → ℕ) (ch : AudioChannel) (acc : ℤ)
    → ChannelFits ch
    → weight ch ≤ 255
    → magnitude (after_channel weight ch acc) ≤ magnitude acc + 2 ^ 15
after_channel-le weight ch acc h k =
    if-magnitude-le ch.enabled (acc +ℤ share (weight ch) ch) acc (magnitude acc + 2 ^ 15)
      (omega (arith, magnitude-plus acc (share (weight ch) ch), share-le (weight ch) ch h k))
      (omega arith)

abbrev popped : AudioChannel → AudioChannel
popped ch = if ch.enabled then (read_sample ch).1 else ch

if-triple :
    (on : Bool) (x x' y y' : ℤ) (c c' : AudioChannel)
    → Path
        (ℤ × ℤ × AudioChannel)
        (if on then (x, y, c) else (x', y', c'))
        (if on then x else x', if on then y else y', if on then c else c')
if-triple true x x' y y' c c' = refl
if-triple false x x' y y' c c' = refl

sum-exact :
    (w : ℕ) (ch : AudioChannel) (acc : ℤ)
    → ChannelFits ch
    → w ≤ 255
    → magnitude acc + 2 ^ 15 < 2 ^ 31
    → i32 (acc +ℤ share w ch) ≡ acc +ℤ share w ch
sum-exact w ch acc h k fits =
    i32-exact (acc +ℤ share w ch)
      (omega (arith, magnitude-plus acc (share w ch), share-le w ch h k))

mix_channel-exact :
    (ch : AudioChannel) (l r : ℤ)
    → ChannelFits ch
    → magnitude l + 2 ^ 15 < 2 ^ 31
    → magnitude r + 2 ^ 15 < 2 ^ 31
    → mix_channel ch l r
      ≡ (after_channel left_weight ch l, after_channel right_weight ch r, popped ch)
unfolding mix_channel read_sample
mix_channel-exact ch l r h hl hr =
    let next = (read_sample ch).1 in
    ap (λ (p : ℤ × ℤ). if ch.enabled then (i32 (l +ℤ p.0), i32 (r +ℤ p.1), next) else (l, r, ch))
      (panned-shares ch h)
    ∙ ap₂ (λ (x y : ℤ). if ch.enabled then (x, y, next) else (l, r, ch))
        (sum-exact (left_weight ch) ch l h (omega arith) hl)
        (sum-exact (right_weight ch) ch r h h.pan hr)
    ∙ if-triple ch.enabled (l +ℤ share (left_weight ch) ch) l (r +ℤ share (right_weight ch) ch) r
        next ch

pub mix_from-exact :
    (n i : ℕ) (chs now : ℕ → AudioChannel) (l r : ℤ)
    → ((j : ℕ) → i ≤ j → now j ≡ chs j)
    → ((j : ℕ) → j < i + n → ChannelFits (chs j))
    → magnitude l + n * 2 ^ 15 < 2 ^ 31
    → magnitude r + n * 2 ^ 15 < 2 ^ 31
    → ((mix_from n i now l r).0 ≡ shares left_weight n i chs l)
      × ((mix_from n i now l r).1 ≡ shares right_weight n i chs r)
unfolding mix_from shares
mix_from-exact zero i chs now l r same fits hl hr = (refl, refl)
mix_from-exact (suc n) i chs now l r same fits hl hr =
    let ch = chs i in
    let fit : ChannelFits (chs i) = fits i (omega arith) in
    let l' = after_channel left_weight ch l in
    let r' = after_channel right_weight ch r in
    let mixed : mix_channel (now i) l r ≡ (l', r', popped ch) =
      ap (λ c. mix_channel c l r) (same i (omega arith))
      ∙ mix_channel-exact ch l r fit (omega (arith, hl)) (omega (arith, hr)) in
    let rest =
      mix_from-exact n (i + 1) chs (update now i (popped ch)) l' r'
        (λ j h.
          ap (λ b. if b then popped ch else now j) (ne→== j i (omega arith)) ∙ same j (omega arith))
        (λ j h. fits j (omega arith))
        (omega (arith, hl, after_channel-le left_weight ch l fit (omega arith)))
        (omega (arith, hr, after_channel-le right_weight ch r fit fit.pan)) in
    (
      ap (λ m. (mix_from n (i + 1) (update now i m.2) m.0 m.1).0) mixed ∙ rest.0,
      ap (λ m. (mix_from n (i + 1) (update now i m.2) m.0 m.1).1) mixed ∙ rest.1,
    )

pub shares-le :
    (weight : AudioChannel → ℕ) (n i : ℕ) (chs : ℕ → AudioChannel) (acc : ℤ)
    → ((j : ℕ) → j < i + n → ChannelFits (chs j))
    → ((j : ℕ) → j < i + n → weight (chs j) ≤ 255)
    → magnitude (shares weight n i chs acc) ≤ magnitude acc + n * 2 ^ 15
unfolding shares
shares-le weight zero i chs acc fits small = omega arith
shares-le weight (suc n) i chs acc fits small = omega (
  arith,
  after_channel-le weight (chs i) acc (fits i (omega arith)) (small i (omega arith)),
  shares-le weight n (i + 1) chs (after_channel weight (chs i) acc) (λ j h. fits j (omega arith))
      (λ j h. small j (omega arith)),
)
