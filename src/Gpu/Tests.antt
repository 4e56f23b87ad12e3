-- ===== src/Gpu/Tests.antt =====
-- Runs of the GPU, and its theorems at concrete inputs.
use monte_lauro_ml_cd32_ppc.Base.{true, ◌≡◌, refl, arith, Bytes, if◌then◌else◌, ◌==◌}
use monte_lauro_ml_cd32_ppc.Base.Int.{pos}
use monte_lauro_ml_cd32_ppc.Base.Run.{panic}
use monte_lauro_ml_cd32_ppc.Gpu.{Gpu, new}
use monte_lauro_ml_cd32_ppc.Gpu.Frames.{ticks, no_kick_no_frame}
use monte_lauro_ml_cd32_ppc.Gpu.Raster.{Triangle, raster_tri, hit}
use monte_lauro_ml_cd32_ppc.Gpu.Raster.Bounds.{raster_tri-panics}

-- the video memory of the machine, one megabyte
abbrev vram : Bytes
vram = record { len = 0x10_0000; cell = λ i. 0 }

abbrev kicked : Gpu
kicked = record new { regs = λ i. if i == 0 then 1 else 0 }

no_kick_no_frame_example : ticks 1000 new ≡ new
unfolding new
no_kick_no_frame_example = no_kick_no_frame 1000 new refl refl

-- a triangle at the lower edge of the screen
abbrev low_triangle : Triangle
low_triangle = record {
  a = record { x = pos 10; y = pos 470 };
  b = record { x = pos 20; y = pos 470 };
  c = record { x = pos 10; y = pos 479 };
}

covers : hit low_triangle 10 470 ≡ true
unfolding hit
covers = refl

raster_tri-panics_example : raster_tri low_triangle 0xFF vram ≡ panic
raster_tri-panics_example =
    raster_tri-panics low_triangle 0xFF 10 470 vram (omega arith) (omega arith) (omega arith)
      (omega arith) covers (omega arith)

-- one LINE and no end
abbrev one_line : Bytes
one_line = record { len = 8; cell = λ i. if i == 1 then 4 else if i == 5 then 9 else 0 }
