-- ===== src/Audio/Mixer.antt =====
-- The rate at which the mixer takes samples.
use monte_lauro_ml_cd32_ppc.Base.{ℕ, ◌+◌, ◌≤◌, List, [], ◌∷◌, if◌then◌else◌, ltb, u32}
use monte_lauro_ml_cd32_ppc.Audio.{AudioSubsystem, tick, sample_clock}

-- A run of ticks, and the number of samples that it mixes.
abbrev pub run : List ℕ → AudioSubsystem → AudioSubsystem
run [] a = a
run (c ∷ cs) a = run cs (tick c a)

abbrev due : ℕ → AudioSubsystem → ℕ
due cycles a = if ltb (u32 (a.cycle_accum + cycles)) sample_clock then 0 else 1

abbrev pub samples : List ℕ → AudioSubsystem → ℕ
samples [] a = 0
samples (c ∷ cs) a = due c a + samples cs (tick c a)

abbrev pub total : List ℕ → ℕ
total [] = 0
total (c ∷ cs) = c + total cs

abbrev AtMost : ℕ → List ℕ → Type 0
AtMost n [] = Unit {0}
AtMost n (c ∷ cs) = (c ≤ n) × AtMost n cs
