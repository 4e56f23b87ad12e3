-- ===== src/Bus/Ticks.antt =====
-- The tick of the bus: it always comes to an end, and a frame of the GPU reaches the PPC as an
-- interrupt.
use monte_lauro_ml_cd32_ppc.Base.{
  ℕ, if◌then◌else◌, ◌==◌, ◌&&◌, ◌≢◌, refl, Bool-cases, inl, inr, Bytes,
}
use monte_lauro_ml_cd32_ppc.Base.Run.{Run, value, panic, out_of_fuel, ◌>>=◌}
use monte_lauro_ml_cd32_ppc.Memory.{vram_view}
use monte_lauro_ml_cd32_ppc.Gpu
use monte_lauro_ml_cd32_ppc.Gpu.{GpuState}
use monte_lauro_ml_cd32_ppc.Gpu.Lists.{exec_dl}
use monte_lauro_ml_cd32_ppc.Gpu.Lists.Ends.{exec_dl-ends}
use monte_lauro_ml_cd32_ppc.Audio
use monte_lauro_ml_cd32_ppc.Cdrom
use monte_lauro_ml_cd32_ppc.Bus.{
  Bus, tick, tick_gpu, present, command_buffer, service_mailbox, is_idle, is_presenting,
}

-- a part that ends, and a total rest
bind_value-ends :
    {A : Type 0} (r : Run A) (f : A → Bus)
    → r ≢ out_of_fuel
    → (r >>= λ a. value (f a)) ≢ out_of_fuel
bind_value-ends (value a) f p h = cc
bind_value-ends panic f p h = cc
bind_value-ends out_of_fuel f p h = p refl

present-ends : (b : Bus) → present b ≢ out_of_fuel
unfolding present
present-ends b = bind_value-ends _ _ drawn
  where
    cmd : Bytes
    cmd = command_buffer (b.gpu.regs 1) b.mem

    drawn :
        (if cmd.len == 0 then value (vram_view b.mem) else exec_dl cmd (vram_view b.mem))
        ≢ out_of_fuel
    drawn = elim (Bool-cases (cmd.len == 0)) [
      | inl e ↦ rw e (λ h. cc)
      | inr e ↦ rw e (exec_dl-ends cmd (vram_view b.mem))
    ]

tick_gpu-ends : (b : Bus) → tick_gpu b ≢ out_of_fuel
unfolding tick_gpu
tick_gpu-ends b = elim (Bool-cases (is_idle b.gpu.state && is_presenting (Gpu.tick b.gpu).state)) [
  | inl e ↦ rw e (present-ends _)
  | inr e ↦ rw e (λ h. cc)
]

-- Whatever the guest has put into the registers and the memory, a tick of the bus ends, with the
-- bus after it or in a panic: no display list keeps it busy for ever.
pub tick-ends : (cf_cycles : ℕ) (b : Bus) → tick cf_cycles b ≢ out_of_fuel
unfolding tick
tick-ends cf_cycles b = bind_value-ends _ _ (tick_gpu-ends (service_mailbox b))
