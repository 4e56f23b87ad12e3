-- ===== src/Cdrom/Ends.antt =====
-- The writes to the registers of the drive come to an end.
use monte_lauro_ml_cd32_ppc.Base.{
  ℕ, true, false, if◌then◌else◌, ltb, ◌==◌, ◌≢◌, test_bit, refl, [], ◌%◌, Bool, ◌/◌,
}
use monte_lauro_ml_cd32_ppc.Base.Run.{Run, value, panic, out_of_fuel, ◌>>=◌}
use monte_lauro_ml_cd32_ppc.Cdrom.{CdromDrive}
use monte_lauro_ml_cd32_ppc.Cdrom.Iso.{list_root}
use monte_lauro_ml_cd32_ppc.Cdrom.Registers.{
  command, handle_reg_write, write_byte, write_half, write_word,
}
use monte_lauro_ml_cd32_ppc.Cdrom.Files.{read_dir_entries-ends}

if-ends :
    {A : Type 0} (b : Bool) {x y : Run A}
    → x ≢ out_of_fuel
    → y ≢ out_of_fuel
    → (if b then x else y) ≢ out_of_fuel
if-ends true h k = h
if-ends false h k = k

value-ends : {A : Type 0} (a : A) → value a ≢ out_of_fuel
value-ends a h = cc

list_root-ends : (d : CdromDrive) → list_root d ≢ out_of_fuel
unfolding list_root
list_root-ends d =
    if-ends d.fs_ready (read_dir_entries-ends d d.root_lba d.root_size) (value-ends [])

bind-ends :
    {A B : Type 0} (r : Run A) (f : A → B)
    → r ≢ out_of_fuel
    → (r >>= λ a. value (f a)) ≢ out_of_fuel
bind-ends (value a) f p h = cc
bind-ends panic f p h = cc
bind-ends out_of_fuel f p h = p refl

command-ends : (cmd : ℕ) (d : CdromDrive) → command cmd d ≢ out_of_fuel
unfolding command
command-ends cmd d = if-ends (cmd == 0x01) (value-ends _) (
    if-ends (cmd == 0x02) (value-ends _) (
      if-ends (cmd == 0x03) (value-ends _) (
        if-ends (cmd == 0x10) (value-ends _)
          (if-ends (cmd == 0x11) (bind-ends (list_root d) _ (list_root-ends d)) (value-ends d)))))

handle_reg_write-ends : (idx val : ℕ) (d : CdromDrive) → handle_reg_write idx val d ≢ out_of_fuel
unfolding handle_reg_write
handle_reg_write-ends idx val d = if-ends (idx == 0x10) (command-ends (val % 256) d) (value-ends d)

pub write_byte-ends : (addr val : ℕ) (d : CdromDrive) → write_byte addr val d ≢ out_of_fuel
unfolding write_byte
write_byte-ends addr val d =
    if-ends (ltb (addr % 0x1000 / 4) 64) (handle_reg_write-ends _ _ _) (value-ends d)

pub write_half-ends : (addr val : ℕ) (d : CdromDrive) → write_half addr val d ≢ out_of_fuel
unfolding write_half
write_half-ends addr val d =
    if-ends (test_bit 0 addr) (value-ends d)
      (if-ends (ltb (addr % 0x1000 / 4) 64) (handle_reg_write-ends _ _ _) (value-ends d))

pub write_word-ends : (addr val : ℕ) (d : CdromDrive) → write_word addr val d ≢ out_of_fuel
unfolding write_word
write_word-ends addr val d =
    if-ends (addr % 4 == 0)
      (if-ends (ltb (addr % 0x1000 / 4) 64) (handle_reg_write-ends _ _ _) (value-ends d))
      (value-ends d)
