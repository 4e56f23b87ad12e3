-- ===== src/Audio/Tests.antt =====
-- Runs of the audio subsystem, and its theorems at concrete states.
use monte_lauro_ml_cd32_ppc.Base.{Bool, true, false, [], ◌≡◌, refl, arith, if◌then◌else◌, ◌==◌}
use monte_lauro_ml_cd32_ppc.Base.Int.{pos, negsuc, ◌+ℤ◌, ◌*ℤ◌}
use monte_lauro_ml_cd32_ppc.Audio.{
  AudioChannel, AudioSubsystem, push, tick, mix, mix_from, mix_channel, output_stereo, read_sample,
  panned,
}
use monte_lauro_ml_cd32_ppc.Audio.Fifo.{contents, push-overflow}
use monte_lauro_ml_cd32_ppc.Audio.Shares.{ChannelFits, left_weight, right_weight}
use monte_lauro_ml_cd32_ppc.Audio.Exact.{AudioFits, Clipped, exact_output, tick-exact}

-- two samples, round the end of the buffer
abbrev ringed : AudioChannel
ringed = record {
  fifo = λ i. if i == 2047 then pos 1000 else negsuc 499;
  rd_ptr = 2047;
  wr_ptr = 1;
  enabled = true;
  volume = 1024;
  pan = 255;
}

abbrev one_voice : AudioSubsystem
one_voice = record {
  channels = λ i. if i == 0 then ringed else record ringed { enabled = false };
  master_volume = 512;
  output_l = pos 0;
  output_r = pos 0;
  dsp_regs = λ i. 0;
  cycle_accum = 3000;
}

mixed : output_stereo (tick 174 one_voice) ≡ (pos 0, pos 500)
unfolding output_stereo tick mix mix_from mix_channel read_sample panned ◌*ℤ◌ ◌+ℤ◌
mixed = refl

push-overflow_example : contents (push (pos 7) (record ringed { wr_ptr = 2046 })) ≡ []
push-overflow_example = push-overflow (pos 7) (record ringed { wr_ptr = 2046 }) (omega arith) refl

voices-Fit : (c : Bool) → ChannelFits (if c then ringed else record ringed { enabled = false })
voices-Fit true = record { sample = omega arith; volume = omega arith; pan = omega arith }
voices-Fit false = record { sample = omega arith; volume = omega arith; pan = omega arith }

one_voice-Fits : AudioFits one_voice
one_voice-Fits = record { channels = λ j h. voices-Fit (j == 0); master = omega arith }

tick-exact_example :
    Clipped (exact_output left_weight one_voice) (tick 174 one_voice).output_l
    × Clipped (exact_output right_weight one_voice) (tick 174 one_voice).output_r
tick-exact_example = tick-exact 174 one_voice one_voice-Fits (omega arith) (omega arith)
