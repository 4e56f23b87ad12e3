-- ===== src/Bus/Access.antt =====
-- src/bus.rs, `BusInterface for Bus`: an access goes to the component of its region. A write gives
-- the new bus under the `Option` of the source, or a panic of the CD-ROM's command register.
-- `allow_cf_local_write` is the Cargo feature of this name.
use monte_lauro_ml_cd32_ppc.Base.{
  ℕ, ◌-◌, ◌*◌, ◌/◌, ◌%◌, ◌^◌, Bool, Option, none, some, if◌then◌else◌, ◌==◌, put_bits, map_option,
}
use monte_lauro_ml_cd32_ppc.Base.Run.{Run, value, map_run}
use monte_lauro_ml_cd32_ppc.Memory
use monte_lauro_ml_cd32_ppc.Memory.{
  MemRegion, MemoryMap, unified_ram, system_ram, chip_ram, cold_fire_local, cold_fire_io,
  cdrom_regs, gpu_regs, audio_dsp, dma_regs, vram, boot_rom, miu_regs, mailbox, dvd_expansion,
  reserved, region,
}
use monte_lauro_ml_cd32_ppc.Gpu
use monte_lauro_ml_cd32_ppc.Audio
use monte_lauro_ml_cd32_ppc.Cdrom.Registers as CdRegs
use monte_lauro_ml_cd32_ppc.Cdrom.{CdromDrive}
use monte_lauro_ml_cd32_ppc.Dma
use monte_lauro_ml_cd32_ppc.Interrupt
use monte_lauro_ml_cd32_ppc.Bus.{Bus, read32, write32, service_mailbox}

unfoldable pub read_miu_reg : Bus → ℕ → Option ℕ
read_miu_reg b addr =
    let offset = addr % 16 in
    if offset == 0x00
    then some b.miu_cfg
    else if offset == 0x04
    then some b.miu_stat
    else if offset == 0x08
    then some b.miu_arb
    else if offset == 0x0C
    then some b.miu_timing
    else none

unfoldable pub write_miu_reg : ℕ → ℕ → Bus → Bus
write_miu_reg addr val b =
    let offset = addr % 16 in
    if offset == 0x00
    then record b { miu_cfg = val }
    else if offset == 0x08
    then record b { miu_arb = val }
    else if offset == 0x0C
    then record b { miu_timing = val }
    else b

unfoldable pub read_mailbox : Bus → ℕ → Option ℕ
read_mailbox b addr =
    let offset = addr % 16 in
    if offset == 0x00
    then some b.mailbox_cmd
    else if offset == 0x04
    then some b.mailbox_resp
    else if offset == 0x08
    then some b.mailbox_status
    else if offset == 0x0C
    then some b.mailbox_arg
    else none

unfoldable pub write_mailbox : ℕ → ℕ → Bus → Bus
write_mailbox addr val b =
    let offset = addr % 16 in
    let b' = record b { mailbox_status = val } in
    if offset == 0x00
    then record b { mailbox_cmd = val }
    else if offset == 0x04
    then record b { mailbox_resp = val }
    else if offset == 0x08
    then if val == 1 then service_mailbox b' else b'
    else if offset == 0x0C
    then record b { mailbox_arg = val }
    else b

-- `unwrap_or(0)`
abbrev or_zero : Option ℕ → ℕ
or_zero none = 0
or_zero (some v) = v

-- `(3 - (addr & 3)) << 3` and `(2 - (addr & 2)) << 3`
abbrev pub byte_shift : ℕ → ℕ
byte_shift addr = (3 - addr % 4) * 8

abbrev pub half_shift : ℕ → ℕ
half_shift addr = (2 - addr / 2 % 2 * 2) * 8

-- `addr & 0x0C`
abbrev mailbox_word : ℕ → ℕ
mailbox_word addr = addr % 16 / 4 * 4

unfoldable pub write_mailbox_byte : ℕ → ℕ → Bus → Bus
write_mailbox_byte addr val b =
    write_mailbox (mailbox_word addr)
      (put_bits (byte_shift addr) 8 val (or_zero (read_mailbox b (mailbox_word addr)))) b

unfoldable pub read_byte_in : MemRegion → Bus → ℕ → Option ℕ
read_byte_in unified_ram b addr = Memory.read_byte b.mem addr
read_byte_in system_ram b addr = Memory.read_byte b.mem addr
read_byte_in chip_ram b addr = Memory.read_byte b.mem addr
read_byte_in cold_fire_local b addr = Memory.read_byte b.mem addr
read_byte_in boot_rom b addr = Memory.read_byte b.mem addr
read_byte_in vram b addr = Memory.read_byte b.mem addr
read_byte_in gpu_regs b addr = map_option (λ v. v % 256) (Gpu.read_reg b.gpu addr)
read_byte_in audio_dsp b addr = some (Audio.read_byte b.audio addr)
read_byte_in cdrom_regs b addr = some (CdRegs.read_byte b.cdrom addr)
read_byte_in miu_regs b addr = map_option (λ v. v % 256) (read_miu_reg b addr)
read_byte_in mailbox b addr = map_option (λ v. v % 256) (read_mailbox b addr)
read_byte_in cold_fire_io b addr = some (read32 b.cfio (addr % 64) / 2 ^ byte_shift addr % 256)
read_byte_in dma_regs b addr = some (Dma.read_reg addr b.dma % 256)
read_byte_in dvd_expansion b addr = none
read_byte_in reserved b addr = none

unfoldable pub read_byte : Bus → ℕ → Option ℕ
read_byte b addr = read_byte_in (region addr) b addr

unfoldable pub read_half_in : MemRegion → Bus → ℕ → Option ℕ
read_half_in unified_ram b addr = Memory.read_half b.mem addr
read_half_in system_ram b addr = Memory.read_half b.mem addr
read_half_in chip_ram b addr = Memory.read_half b.mem addr
read_half_in cold_fire_local b addr = Memory.read_half b.mem addr
read_half_in boot_rom b addr = Memory.read_half b.mem addr
read_half_in vram b addr = Memory.read_half b.mem addr
read_half_in gpu_regs b addr = map_option (λ v. v % 2 ^ 16) (Gpu.read_reg b.gpu addr)
read_half_in audio_dsp b addr = some (Audio.read_half b.audio addr)
read_half_in cdrom_regs b addr = some (CdRegs.read_half b.cdrom addr)
read_half_in miu_regs b addr = map_option (λ v. v % 2 ^ 16) (read_miu_reg b addr)
read_half_in mailbox b addr = map_option (λ v. v % 2 ^ 16) (read_mailbox b addr)
read_half_in cold_fire_io b addr = some (read32 b.cfio (addr % 64) / 2 ^ half_shift addr % 2 ^ 16)
read_half_in dma_regs b addr = some (Dma.read_reg addr b.dma % 2 ^ 16)
read_half_in dvd_expansion b addr = none
read_half_in reserved b addr = none

unfoldable pub read_half : Bus → ℕ → Option ℕ
read_half b addr = read_half_in (region addr) b addr

unfoldable pub read_word_in : MemRegion → Bus → ℕ → Option ℕ
read_word_in unified_ram b addr = Memory.read_word b.mem addr
read_word_in system_ram b addr = Memory.read_word b.mem addr
read_word_in chip_ram b addr = Memory.read_word b.mem addr
read_word_in cold_fire_local b addr = Memory.read_word b.mem addr
read_word_in boot_rom b addr = Memory.read_word b.mem addr
read_word_in vram b addr = Memory.read_word b.mem addr
read_word_in gpu_regs b addr = Gpu.read_reg b.gpu addr
read_word_in audio_dsp b addr = Audio.read_word b.audio addr
read_word_in cdrom_regs b addr = CdRegs.read_word b.cdrom addr
read_word_in miu_regs b addr = read_miu_reg b addr
read_word_in mailbox b addr = read_mailbox b addr
read_word_in cold_fire_io b addr = some (read32 b.cfio (addr % 64))
read_word_in dma_regs b addr = some (Dma.read_reg addr b.dma)
read_word_in dvd_expansion b addr = none
read_word_in reserved b addr = none

unfoldable pub read_word : Bus → ℕ → Option ℕ
read_word b addr = read_word_in (region addr) b addr

-- The write went through, and this is the bus after it.
abbrev pub done : Bus → Run (Option Bus)
done b = value (some b)

-- the memory's answer, put back into the bus
abbrev with_mem : Bus → Option MemoryMap → Run (Option Bus)
with_mem b m = value (map_option (λ m'. record b { mem = m' }) m)

abbrev with_cdrom : Bus → Run CdromDrive → Run (Option Bus)
with_cdrom b r = map_run (λ d. some (record b { cdrom = d })) r

unfoldable pub write_byte_in : MemRegion → ℕ → ℕ → Bus → Run (Option Bus)
write_byte_in unified_ram addr val b = with_mem b (Memory.write_byte addr val b.mem)
write_byte_in system_ram addr val b = with_mem b (Memory.write_byte addr val b.mem)
write_byte_in chip_ram addr val b = with_mem b (Memory.write_byte addr val b.mem)
write_byte_in vram addr val b = with_mem b (Memory.write_byte addr val b.mem)
write_byte_in gpu_regs addr val b = done (record b { gpu = Gpu.write_reg addr val b.gpu })
write_byte_in audio_dsp addr val b = done (record b { audio = Audio.write_byte addr val b.audio })
write_byte_in cdrom_regs addr val b = with_cdrom b (CdRegs.write_byte addr val b.cdrom)
write_byte_in miu_regs addr val b = done (write_miu_reg addr val b)
write_byte_in mailbox addr val b = done (write_mailbox_byte addr val b)
write_byte_in cold_fire_io addr val b =
    let off = addr % 64 / 4 * 4 in
    let merged = put_bits (byte_shift addr) 8 val (read32 b.cfio off) in
    done (record b { cfio = write32 off merged b.cfio })
write_byte_in _ addr val b = value none

unfoldable pub write_byte : ℕ → ℕ → Bus → Run (Option Bus)
write_byte addr val b = write_byte_in (region addr) addr val b

-- `off & !2`
abbrev even_half : ℕ → ℕ
even_half addr = addr % 64 - addr / 2 % 2 * 2

unfoldable pub write_half_in : MemRegion → ℕ → ℕ → Bus → Run (Option Bus)
write_half_in unified_ram addr val b = with_mem b (Memory.write_half addr val b.mem)
write_half_in system_ram addr val b = with_mem b (Memory.write_half addr val b.mem)
write_half_in chip_ram addr val b = with_mem b (Memory.write_half addr val b.mem)
write_half_in vram addr val b = with_mem b (Memory.write_half addr val b.mem)
write_half_in gpu_regs addr val b = done (record b { gpu = Gpu.write_reg addr val b.gpu })
write_half_in audio_dsp addr val b = done (record b { audio = Audio.write_half addr val b.audio })
write_half_in cdrom_regs addr val b = with_cdrom b (CdRegs.write_half addr val b.cdrom)
write_half_in miu_regs addr val b = done (write_miu_reg addr val b)
write_half_in mailbox addr val b = done (write_mailbox addr val b)
write_half_in cold_fire_io addr val b =
    let off = even_half addr in
    let merged = put_bits (half_shift addr) 16 val (read32 b.cfio off) in
    done (record b { cfio = write32 off merged b.cfio })
write_half_in dma_regs addr val b = done (record b { dma = Dma.write_reg addr val b.dma })
write_half_in _ addr val b = value none

unfoldable pub write_half : ℕ → ℕ → Bus → Run (Option Bus)
write_half addr val b = write_half_in (region addr) addr val b

unfoldable pub write_word_in : Bool → MemRegion → ℕ → ℕ → Bus → Run (Option Bus)
write_word_in allow unified_ram addr val b = with_mem b (Memory.write_word addr val b.mem)
write_word_in allow system_ram addr val b = with_mem b (Memory.write_word addr val b.mem)
write_word_in allow chip_ram addr val b = with_mem b (Memory.write_word addr val b.mem)
write_word_in allow vram addr val b = with_mem b (Memory.write_word addr val b.mem)
write_word_in allow cold_fire_local addr val b =
    if allow then with_mem b (Memory.write_word addr val b.mem) else value none
write_word_in allow gpu_regs addr val b = done (record b { gpu = Gpu.write_reg addr val b.gpu })
write_word_in allow audio_dsp addr val b =
    done (record b { audio = Audio.write_word addr val b.audio })
write_word_in allow cdrom_regs addr val b = with_cdrom b (CdRegs.write_word addr val b.cdrom)
write_word_in allow miu_regs addr val b = done (write_miu_reg addr val b)
write_word_in allow mailbox addr val b = done (write_mailbox addr val b)
write_word_in allow cold_fire_io addr val b =
    done (record b { cfio = write32 (addr % 64) val b.cfio })
write_word_in allow dma_regs addr val b = done (record b { dma = Dma.write_reg addr val b.dma })
write_word_in allow _ addr val b = value none

unfoldable pub write_word : Bool → ℕ → ℕ → Bus → Run (Option Bus)
write_word allow_cf_local_write addr val b =
    write_word_in allow_cf_local_write (region addr) addr val b

unfoldable pub access_cycles_in : MemRegion → Bool → ℕ
access_cycles_in unified_ram is_coldfire = if is_coldfire then 1 else 0
access_cycles_in system_ram is_coldfire = if is_coldfire then 1 else 0
access_cycles_in chip_ram is_coldfire = if is_coldfire then 1 else 0
access_cycles_in vram is_coldfire = 3
access_cycles_in cold_fire_io is_coldfire = 1
access_cycles_in mailbox is_coldfire = 1
access_cycles_in _ is_coldfire = 0

unfoldable pub access_cycles : ℕ → Bool → ℕ
access_cycles addr is_coldfire = access_cycles_in (region addr) is_coldfire

unfoldable pub ppc_irq_pending : Bus → Bool
ppc_irq_pending b = Interrupt.ppc_irq_pending b.intc

unfoldable pub cf_irq_pending : Bus → Option (ℕ × ℕ)
cf_irq_pending b = Interrupt.cf_irq_pending b.intc
