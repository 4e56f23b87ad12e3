-- ===== src/Gpu.antt =====
-- src/gpu/tbdr.rs: the registers and the frame state machine of the GPU. The display lists are in
-- Gpu/Raster.antt and Gpu/Lists.antt.
pub mod Frames
pub mod Pixels
pub mod Raster
pub mod Lists
mod Tests
use monte_lauro_ml_cd32_ppc.Base.{
  ℕ, ◌+◌, ◌-◌, ◌*◌, ◌/◌, ◌%◌, ◌^◌, Bool, true, false, Option, none, some, if◌then◌else◌, ltb, leb,
  ◌==◌, update, u32, u64, test_bit, set_bit, clear_bit,
}

abbrev fb_width : ℕ
fb_width = 640

abbrev fb_height : ℕ
fb_height = 480

pub data GpuState : Type 0 where
  idle presenting vertical_blank : GpuState

pub record Gpu : Type 0 where
  pub state : GpuState
  pub regs : ℕ → ℕ
  pub frame_count : ℕ
  pub display_enabled : Bool
  pub fb_addr : ℕ
  pub fb_stride : ℕ

unfoldable pub new : Gpu
new = record {
  state = idle;
  regs = λ i. 0;
  frame_count = 0;
  display_enabled = true;
  fb_addr = 0;
  fb_stride = fb_width * 4;
}

-- `tick`, by the state. The number of cycles is not used.
unfoldable pub tick_in : GpuState → Gpu → Gpu
tick_in idle g =
    if test_bit 0 (g.regs 0x00)
    then record g { regs = update g.regs 0x00 (clear_bit 0 (g.regs 0x00)); state = presenting }
    else g
tick_in presenting g = record g { state = vertical_blank }
tick_in vertical_blank g =
    let frames = u64 (g.frame_count + 1) in
    let r1 = update (update g.regs 0x10 (u32 frames)) 0x08 2 in
    let r2 = update r1 0x20 (set_bit 0 (r1 0x20)) in
    record g { frame_count = frames; regs = update r2 0x08 0; state = idle }

unfoldable pub tick : Gpu → Gpu
unfolding tick_in
tick g = tick_in g.state g

-- `((addr & 0xFFFF) >> 2)`
abbrev pub reg_index : ℕ → ℕ
reg_index addr = addr % 0x1_0000 / 4

unfoldable pub read_reg : Gpu → ℕ → Option ℕ
read_reg g addr = if ltb (reg_index addr) 256 then some (g.regs (reg_index addr)) else none

abbrev vram_window : ℕ
vram_window = 0x0401_0000

unfoldable pub write_reg : ℕ → ℕ → Gpu → Gpu
write_reg addr val g =
    let idx = reg_index addr in
    let g' = record g { regs = update g.regs idx val } in
    if ltb idx 256
    then if idx == 1
      then if leb vram_window val then record g' { fb_addr = val - vram_window } else g'
      else g'
    else g

unfoldable pub fb_byte_size : Gpu → ℕ
fb_byte_size g = fb_height * g.fb_stride
