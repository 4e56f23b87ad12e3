-- ===== src/Cdrom/Registers.antt =====
-- src/cdrom.rs: the register window of the drive, and the command register.
use monte_lauro_ml_cd32_ppc.Base.{
  ℕ, ◌*◌, ◌/◌, ◌%◌, ◌^◌, Option, none, some, List, [], ◌∷◌, ◌++◌, if◌then◌else◌, ltb, ◌==◌, update,
  put_bits, test_bit,
}
use monte_lauro_ml_cd32_ppc.Base.Run.{Run, value, ◌>>=◌}
use monte_lauro_ml_cd32_ppc.Cdrom.{CdromDrive, ready, paused, start_read}
use monte_lauro_ml_cd32_ppc.Cdrom.Iso.{IsoFile, list_root, mount}

-- `((addr & 0xFFF) >> 2)`
abbrev pub reg_index : ℕ → ℕ
reg_index addr = addr % 0x1000 / 4

unfoldable pub read_byte : CdromDrive → ℕ → ℕ
read_byte d addr = if ltb (reg_index addr) 64 then d.regs (reg_index addr) % 256 else 0

unfoldable pub read_half : CdromDrive → ℕ → ℕ
read_half d addr = if ltb (reg_index addr) 64 then d.regs (reg_index addr) % 2 ^ 16 else 0

unfoldable pub read_word : CdromDrive → ℕ → Option ℕ
read_word d addr = if ltb (reg_index addr) 64 then some (d.regs (reg_index addr)) else none

-- what command 0x11 pushes: every name and a line feed
unfoldable names_of : List IsoFile → List ℕ
names_of [] = []
names_of (f ∷ fs) = f.name ++ (0x0A ∷ names_of fs)

unfoldable pub command : ℕ → CdromDrive → Run CdromDrive
unfolding names_of
command cmd d =
    let lba = d.regs 0x14 in
    let sectors = d.regs 0x18 in
    let listed =
      list_root d >>= λ files. value (record d { data_buffer = names_of files; state = ready }) in
    if cmd == 0x01
    then value (start_read lba sectors d)
    else if cmd == 0x02
    then value (record d { state = paused })
    else if cmd == 0x03
    then value (record d { state = ready })
    else if cmd == 0x10
    then value (mount d).0
    else if cmd == 0x11
    then listed
    else value d

unfoldable pub handle_reg_write : ℕ → ℕ → CdromDrive → Run CdromDrive
handle_reg_write idx val d = if idx == 0x10 then command (val % 256) d else value d

-- the register write and its command, common to the three widths
unfoldable store_reg : ℕ → ℕ → CdromDrive → Run CdromDrive
store_reg idx val d = handle_reg_write idx val (record d { regs = update d.regs idx val })

-- `(addr & 3) * 8` and `(addr & 2) * 8`
abbrev pub byte_shift : ℕ → ℕ
byte_shift addr = addr % 4 * 8

abbrev pub half_shift : ℕ → ℕ
half_shift addr = addr / 2 % 2 * 2 * 8

unfoldable pub write_byte : ℕ → ℕ → CdromDrive → Run CdromDrive
unfolding store_reg
write_byte addr val d =
    let idx = reg_index addr in
    if ltb idx 64 then store_reg idx (put_bits (byte_shift addr) 8 val (d.regs idx)) d else value d

unfoldable pub write_half : ℕ → ℕ → CdromDrive → Run CdromDrive
unfolding store_reg
write_half addr val d =
    let idx = reg_index addr in
    if test_bit 0 addr
    then value d
    else if ltb idx 64
    then store_reg idx (put_bits (half_shift addr) 16 val (d.regs idx)) d
    else value d

unfoldable pub write_word : ℕ → ℕ → CdromDrive → Run CdromDrive
unfolding store_reg
write_word addr val d =
    let idx = reg_index addr in
    if addr % 4 == 0 then if ltb idx 64 then store_reg idx val d else value d else value d
