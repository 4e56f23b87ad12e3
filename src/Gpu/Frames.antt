-- ===== src/Gpu/Frames.antt =====
-- The frame state machine: a kick takes three ticks to become a frame, and the registers.
use monte_lauro_ml_cd32_ppc.Base.{
  ℕ, zero, suc, ◌-◌, ◌<◌, false, some, if◌then◌else◌, ltb, ◌==◌, ◌≡◌, ◌≢◌, refl, ap, ◌∙◌, arith,
  test_bit,
}
use monte_lauro_ml_cd32_ppc.Gpu.{Gpu, idle, tick, read_reg, write_reg, reg_index, vram_window}

abbrev pub ticks : ℕ → Gpu → Gpu
ticks zero g = g
ticks (suc n) g = ticks n (tick g)

-- Without a kick an idle GPU does nothing, for ever.
pub no_kick_no_frame :
    (n : ℕ) (g : Gpu) → g.state ≡ idle → test_bit 0 (g.regs 0x00) ≡ false → ticks n g ≡ g
no_kick_no_frame zero g h k = refl
no_kick_no_frame (suc n) g h k = ap (ticks n) (still g h k) ∙ no_kick_no_frame n g h k
  where
    still : (g : Gpu) → g.state ≡ idle → test_bit 0 (g.regs 0x00) ≡ false → tick g ≡ g
    still g h k = unfold tick in ground arith

-- A register of index below 256 that is written is read back and no other changes. The list
-- register, word 1, also moves the framebuffer, but only for an address from the window at
-- 0x0401_0000 on; any other register leaves the framebuffer where it is.
write_reg_lem :
    (addr val : ℕ) (g : Gpu)
    → reg_index addr < 256
    → (read_reg (write_reg addr val g) addr ≡ some val)
      × ((j : ℕ) → j ≢ reg_index addr → (write_reg addr val g).regs j ≡ g.regs j)
      × ((write_reg addr val g).fb_addr ≡ (
          if reg_index addr == 1
          then if ltb val vram_window then g.fb_addr else val - vram_window
          else g.fb_addr))
unfolding write_reg read_reg
write_reg_lem addr val g h = (ground arith, λ j ne. ground arith, ground arith)
