-- ===== src/Bus.antt =====
-- src/bus.rs: the bus state, the ColdFire's I/O registers, the mailbox and the tick. The routing of
-- an access by its region is in Bus/Access.antt.
pub mod Access
pub mod Interface
pub mod Ends
pub mod Ram
pub mod Mailbox
pub mod Lanes
pub mod Routing
pub mod Ticks
mod Tests
use monte_lauro_ml_cd32_ppc.Base.{
  ℕ, zero, suc, ◌+◌, ◌-◌, ◌*◌, ◌/◌, ◌%◌, ◌^◌, min, Bool, true, false, Option, none, some, List, [],
  ◌∷◌, if◌then◌else◌, ltb, leb, ◌==◌, ◌&&◌, update, u8, u16, u32, Bytes, put_bits, test_bit,
  clear_bit, slice,
}
use monte_lauro_ml_cd32_ppc.Base.Run.{Run, value, panic, out_of_fuel, ◌>>=◌, map_run}
use monte_lauro_ml_cd32_ppc.Memory
use monte_lauro_ml_cd32_ppc.Memory.{MemoryMap, vram_view, put_vram}
use monte_lauro_ml_cd32_ppc.Gpu
use monte_lauro_ml_cd32_ppc.Gpu.{Gpu, GpuState, idle, presenting, vertical_blank}
use monte_lauro_ml_cd32_ppc.Gpu.Lists.{exec_dl}
use monte_lauro_ml_cd32_ppc.Audio
use monte_lauro_ml_cd32_ppc.Audio.{AudioSubsystem}
use monte_lauro_ml_cd32_ppc.Cdrom
use monte_lauro_ml_cd32_ppc.Cdrom.{CdromDrive}
use monte_lauro_ml_cd32_ppc.Dma
use monte_lauro_ml_cd32_ppc.Dma.{DmaController}
use monte_lauro_ml_cd32_ppc.Interrupt
use monte_lauro_ml_cd32_ppc.Interrupt.{InterruptController, gpu_vblank, assert_irq}

pub record DvdExpansion : Type 0 where
  pub present : Bool
  pub regs : ℕ → ℕ
  pub image : Option Bytes  -- `data`

unfoldable pub new_dvd : DvdExpansion
new_dvd = record { present = false; regs = λ i. 0; image = none }

unfoldable insert_dvd : Bytes → DvdExpansion → DvdExpansion
insert_dvd image d = record { present = true; regs = update d.regs 0 0x01; image = some image }

unfoldable eject_dvd : DvdExpansion → DvdExpansion
eject_dvd d = record { present = false; regs = update d.regs 0 0x00; image = none }

-- `ColdFireIo`: its sixteen registers
abbrev ColdFireIo : Type 0
ColdFireIo = ℕ → ℕ

unfoldable pub new_cfio : ColdFireIo
new_cfio = update (update (λ i. 0) 1 0xC0) 8 0xFFFF

unfoldable pub read32 : ColdFireIo → ℕ → ℕ
read32 io offset = if ltb (offset / 4) 16 then io (offset / 4) else 0

unfoldable pub write32 : ℕ → ℕ → ColdFireIo → ColdFireIo
write32 offset val io =
    let idx = offset / 4 in
    if leb 16 idx
    then io
    else if idx == 0
    then update (update io 0 val) 1 0xC0
    else update io idx val

pub record Bus : Type 0 where
  pub mem : MemoryMap
  pub gpu : Gpu
  pub audio : AudioSubsystem
  pub cdrom : CdromDrive
  pub mailbox_cmd : ℕ
  pub mailbox_resp : ℕ
  pub mailbox_status : ℕ
  pub mailbox_arg : ℕ
  pub miu_cfg : ℕ
  pub miu_stat : ℕ
  pub miu_arb : ℕ
  pub miu_timing : ℕ
  pub cfio : ColdFireIo
  pub intc : InterruptController
  pub dma : DmaController
  pub dvd : DvdExpansion

unfoldable pub new : Bytes → Bus
new bios = record {
  mem = Memory.new bios;
  gpu = Gpu.new;
  audio = Audio.new;
  cdrom = Cdrom.new;
  mailbox_cmd = 0;
  mailbox_resp = 0;
  mailbox_status = 0;
  mailbox_arg = 0;
  miu_cfg = 0;
  miu_stat = 0;
  miu_arb = 0;
  miu_timing = 0;
  cfio = new_cfio;
  intc = Interrupt.new;
  dma = Dma.new;
  dvd = new_dvd;
}

abbrev cf_cmd_io_read : ℕ
cf_cmd_io_read = 0x02

abbrev cf_cmd_io_write : ℕ
cf_cmd_io_write = 0x03

abbrev cf_cmd_joypad : ℕ
cf_cmd_joypad = 0x04

abbrev cf_cmd_cdrom_status : ℕ
cf_cmd_cdrom_status = 0x05

abbrev cf_cmd_uart_write : ℕ
cf_cmd_uart_write = 0x07

-- The answer of the companion. EXEC, DMA_AUDIO, HALT and every unknown command answer 0.
unfoldable pub mailbox_answer : ℕ → ℕ → Bus → ℕ
mailbox_answer cmd arg b =
    if cmd == cf_cmd_io_read
    then read32 b.cfio (arg % 64)
    else if cmd == cf_cmd_joypad
    then read32 b.cfio 0x20
    else if cmd == cf_cmd_cdrom_status
    then if b.cdrom.disc_inserted then 1 else 0
    else 0

-- What the command writes to the I/O registers.
unfoldable pub mailbox_effect : ℕ → ℕ → ColdFireIo → ColdFireIo
mailbox_effect cmd arg io =
    if cmd == cf_cmd_io_write
    then write32 (arg % 256) (arg / 2 ^ 16 % 2 ^ 16) io
    else if cmd == cf_cmd_uart_write
    then write32 0x00 (arg % 256) io
    else io

unfoldable pub service_mailbox : Bus → Bus
service_mailbox b =
    if b.mailbox_status == 1
    then record b {
      cfio = mailbox_effect b.mailbox_cmd b.mailbox_arg b.cfio;
      mailbox_resp = mailbox_answer b.mailbox_cmd b.mailbox_arg b;
      mailbox_status = 0;
    }
    else b

unfoldable ppc_mailbox_send : ℕ → ℕ → Bus → Bus
ppc_mailbox_send cmd arg b =
    service_mailbox (record b { mailbox_cmd = cmd; mailbox_arg = arg; mailbox_status = 1 })

unfoldable cf_mailbox_poll : Bus → Option (ℕ × ℕ)
cf_mailbox_poll b = if b.mailbox_status == 1 then some (b.mailbox_cmd, b.mailbox_arg) else none

unfoldable cf_mailbox_respond : ℕ → Bus → Bus
cf_mailbox_respond resp b = record b { mailbox_resp = resp; mailbox_status = 0 }

-- The pins are active low: `!state` in 16 bits.
unfoldable set_joypad : ℕ → Bus → Bus
set_joypad state b = record b { cfio = write32 0x20 (2 ^ 16 - 1 - state) b.cfio }

unfoldable joypad_raw_gpio : Bus → ℕ
joypad_raw_gpio b = u16 (read32 b.cfio 0x20)

-- The bytes that `framebuffer_rgba` shows: none where the framebuffer begins past the memory.
unfoldable framebuffer_rgba : Bus → Bytes
framebuffer_rgba b =
    let fb = b.gpu.fb_addr in
    let vram = vram_view b.mem in
    if leb vram.len fb then record { len = 0; cell = λ i. vram.cell i } else record {
      len = min (fb + Gpu.fb_byte_size b.gpu) vram.len - fb;
      cell = λ i. vram.cell (fb + i);
    }

abbrev is_idle : GpuState → Bool
is_idle idle = true
is_idle _ = false

abbrev is_presenting : GpuState → Bool
is_presenting presenting = true
is_presenting _ = false

-- The copy of the command buffer: up to 8192 bytes from the list address, none past the RAM.
unfoldable pub command_buffer : ℕ → MemoryMap → Bytes
command_buffer list_addr m =
    if ltb list_addr (u32 m.unified.len)
    then record {
      len = min (list_addr + 8192) m.unified.len - list_addr;
      cell = λ i. m.unified.cell (list_addr + i);
    }
    else record { len = 0; cell = λ i. 0 }

-- The display list of a kick, and the second tick of the GPU.
unfoldable pub present : Bus → Run Bus
present b =
    let cmd = command_buffer (b.gpu.regs 1) b.mem in
    let drawn = if cmd.len == 0 then value (vram_view b.mem) else exec_dl cmd (vram_view b.mem) in
    drawn >>= λ v. value (record b { mem = put_vram v b.mem; gpu = Gpu.tick b.gpu })

unfoldable pub tick_gpu : Bus → Run Bus
tick_gpu b =
    let b' = record b { gpu = Gpu.tick b.gpu } in
    if is_idle b.gpu.state && is_presenting b'.gpu.state then present b' else value b'

-- The vertical blank of the GPU becomes an interrupt.
unfoldable pub take_vblank : Bus → Bus
take_vblank b =
    let g = b.gpu in
    if test_bit 0 (g.regs 0x20)
    then record b {
      intc = assert_irq gpu_vblank b.intc;
      gpu = record g { regs = update g.regs 0x20 (clear_bit 0 (g.regs 0x20)) };
    }
    else b

-- `tick`. The PPC's cycles go to the GPU, which does not use them.
unfoldable pub tick : ℕ → Bus → Run Bus
tick cf_cycles b = tick_gpu (service_mailbox b) >>= λ b'.
    value (
      take_vblank
        (record b' { audio = Audio.tick cf_cycles b'.audio; cdrom = Cdrom.tick b'.cdrom }))
