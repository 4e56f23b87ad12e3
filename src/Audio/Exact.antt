-- ===== src/Audio/Exact.antt =====
-- The output of the mixer against exact arithmetic.
use monte_lauro_ml_cd32_ppc.Base.{
  ℕ, ◌+◌, ◌^◌, ◌≤◌, ◌<◌, false, ltb, u32, ◌≡◌, refl, ◌∙◌, ap, sym, subst, arith, ◌⊎◌,
}
use monte_lauro_ml_cd32_ppc.Base.Int.{ℤ, pos, negsuc, ◌*ℤ◌, i32, ◌≤ℤ◌}
use monte_lauro_ml_cd32_ppc.Base.Int.Magnitude.{i32-exact, times-le}
use monte_lauro_ml_cd32_ppc.Audio.{
  AudioChannel, AudioSubsystem, div_trunc, clamp16, mix, tick, sample_clock,
}
use monte_lauro_ml_cd32_ppc.Audio.Shares.{
  ChannelFits, left_weight, right_weight, shares, shares-le, mix_from-exact,
}

-- A subsystem in its documented ranges: eight channels in theirs, a master volume up to 1024.
pub record AudioFits (a : AudioSubsystem) : Type 0 where
  pub channels : (j : ℕ) → j < 8 → ChannelFits (a.channels j)
  pub master : a.master_volume ≤ 1024

-- one side of the output, in exact arithmetic and before it is clipped
abbrev pub exact_output : (AudioChannel → ℕ) → AudioSubsystem → ℤ
exact_output weight a = div_trunc (shares weight 8 0 a.channels (pos 0) *ℤ pos a.master_volume) 1024

-- `y` is `x` clipped to 16 bits.
abbrev pub Clipped : ℤ → ℤ → Type 0
Clipped x y =
    ((negsuc 32767 ≤ℤ x) × (x ≤ℤ pos 32767) × (y ≡ x))
    ⊎ (((pos 32768 ≤ℤ x) × (y ≡ pos 32767)) ⊎ ((x ≤ℤ negsuc 32768) × (y ≡ negsuc 32767)))

clamp16-Clipped : (x : ℤ) → Clipped x (clamp16 x)
clamp16-Clipped x = ground arith

mastered :
    (weight : AudioChannel → ℕ) (a : AudioSubsystem)
    → AudioFits a
    → ((j : ℕ) → j < 8 → weight (a.channels j) ≤ 255)
    → let total = shares weight 8 0 a.channels (pos 0) in
      i32 (total *ℤ pos a.master_volume) ≡ total *ℤ pos a.master_volume
mastered weight a h small =
    let total = shares weight 8 0 a.channels (pos 0) in
    i32-exact (total *ℤ pos a.master_volume) (
      omega (
        arith,
        times-le total (pos a.master_volume) (2 ^ 18) 1024
            (omega (arith, shares-le weight 8 0 a.channels (pos 0) h.channels small))
            (omega (arith, h.master)),
      ))

-- With samples of 16 bits, volumes of the channels up to 1024 and pans up to 255, as their fields are
-- documented, and a master volume up to 1024, which is what it starts with, nothing in the mixer wraps: a
-- tick on which a sample is due, and whose cycles do not make the accumulator overflow, puts out on either
-- side the sum of the exact shares of the enabled ones of the eight channels, by the master volume out of
-- 1024, clipped to 16 bits. The left share of a channel has the weight 255 less its pan and the right one
-- its pan, out of 255, and the quotients are rounded towards zero.
pub tick-exact :
    (cycles : ℕ) (a : AudioSubsystem)
    → AudioFits a
    → sample_clock ≤ a.cycle_accum + cycles
    → a.cycle_accum + cycles < 2 ^ 32
    → Clipped (exact_output left_weight a) (tick cycles a).output_l
      × Clipped (exact_output right_weight a) (tick cycles a).output_r
unfolding tick mix
tick-exact cycles a h due fits =
    let mixed =
      mix_from-exact 8 0 a.channels a.channels (pos 0) (pos 0) (λ j k. refl) h.channels
        (omega arith) (omega arith) in
    let now : ltb (u32 (a.cycle_accum + cycles)) sample_clock ≡ false = ground arith in
    rw now (
      subst (λ x. Clipped (exact_output left_weight a) (clamp16 (div_trunc x 1024)))
          (sym (
            ap (λ x. i32 (x *ℤ pos a.master_volume)) mixed.0
            ∙ mastered left_weight a h (λ j k. omega arith)))
          (clamp16-Clipped (exact_output left_weight a)),
      subst (λ x. Clipped (exact_output right_weight a) (clamp16 (div_trunc x 1024)))
          (sym (
            ap (λ x. i32 (x *ℤ pos a.master_volume)) mixed.1
            ∙ mastered right_weight a h (λ j k. (h.channels j k).pan)))
          (clamp16-Clipped (exact_output right_weight a)),
    )
