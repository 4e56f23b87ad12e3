-- ===== src/Cdrom.antt =====
-- src/cdrom.rs: the drive, its sectors and its ticks. The registers and their commands are in
-- Cdrom/Registers.antt, the file system of the disc in Cdrom/Iso.antt.
pub mod Iso
pub mod Registers
pub mod Reading
pub mod Files
pub mod Window
pub mod Ends
mod Tests
use monte_lauro_ml_cd32_ppc.Base.{
  ℕ, zero, suc, ◌+◌, ◌-◌, ◌*◌, ◌/◌, ◌%◌, ◌^◌, Bool, true, false, Option, none, some, List, [], ◌∷◌,
  ◌++◌, if◌then◌else◌, ltb, ◌==◌, update, Bytes, slice, u32, set_bit, clear_bit, ◌>>=◌,
}

abbrev sector_size : ℕ
sector_size = 2048

abbrev pvd_lba : ℕ
pvd_lba = 16

pub data CdromState : Type 0 where
  no_disc spinning_up ready reading paused : CdromState

-- `data_buffer` is a list, its front first. Counters and registers are `u32`s that wrap.
pub record CdromDrive : Type 0 where
  pub state : CdromState
  pub regs : ℕ → ℕ
  pub data_buffer : List ℕ
  pub disc_inserted : Bool
  pub lba : ℕ
  pub sectors_remaining : ℕ
  pub virtual_disc : Option Bytes
  pub fs_ready : Bool
  pub root_lba : ℕ
  pub root_size : ℕ

unfoldable pub new : CdromDrive
new = record {
  state = no_disc;
  regs = λ i. 0;
  data_buffer = [];
  disc_inserted = false;
  lba = 0;
  sectors_remaining = 0;
  virtual_disc = none;
  fs_ready = false;
  root_lba = 0;
  root_size = 0;
}

unfoldable insert_disc : Bytes → CdromDrive → CdromDrive
insert_disc disc d = record d {
  virtual_disc = some disc;
  disc_inserted = true;
  state = spinning_up;
  regs = update d.regs 0x00 0x01;
}

unfoldable eject_disc : CdromDrive → CdromDrive
eject_disc d = record d {
  virtual_disc = none;
  disc_inserted = false;
  state = no_disc;
  regs = update d.regs 0x00 0x00;
}

-- A sector of a disc, if the disc holds all of it.
unfoldable pub sector_of : Bytes → ℕ → Option (List ℕ)
sector_of disc lba =
    let offset = lba * sector_size in
    if ltb disc.len (offset + sector_size) then none else some (slice disc.cell offset sector_size)

-- `read_sector` and `read_sector_raw`, which are the same code
unfoldable pub read_sector : CdromDrive → ℕ → Option (List ℕ)
read_sector d lba = d.virtual_disc >>= λ disc. sector_of disc lba

-- `self.regs[i] |= 1 << k` and `&= !(1 << k)`
abbrev raise_bit : ℕ → ℕ → (ℕ → ℕ) → ℕ → ℕ
raise_bit k i regs = update regs i (set_bit k (regs i))

abbrev lower_bit : ℕ → ℕ → (ℕ → ℕ) → ℕ → ℕ
lower_bit k i regs = update regs i (clear_bit k (regs i))

-- The branch of `tick` in which the sector could be read.
unfoldable pub take_sector : List ℕ → CdromDrive → CdromDrive
take_sector sector d =
    let left = d.sectors_remaining - 1 in
    let next = u32 (d.lba + 1) in
    let regs = update (update d.regs 0x08 next) 0x0C left in
    record d {
      data_buffer = d.data_buffer ++ sector;
      sectors_remaining = left;
      lba = next;
      regs = if left == 0 then raise_bit 2 0x04 regs else regs;
      state = if left == 0 then ready else d.state;
    }

-- the branch in which it could not
unfoldable pub read_fault : CdromDrive → CdromDrive
read_fault d = record d { state = paused; regs = raise_bit 3 0x04 d.regs }

unfoldable pub tick_read : Option (List ℕ) → CdromDrive → CdromDrive
tick_read (some sector) d = take_sector sector d
tick_read none d = read_fault d

-- `tick`, by the state. The number of cycles is not used.
unfoldable pub tick_in : CdromState → CdromDrive → CdromDrive
tick_in spinning_up d = record d { state = ready; regs = raise_bit 1 0x04 d.regs }
tick_in reading d =
    if ltb 0 d.sectors_remaining
    then tick_read (read_sector d d.lba) d
    else record d { state = ready }
tick_in _ d = d

unfoldable pub tick : CdromDrive → CdromDrive
tick d = tick_in d.state d

abbrev is_ready : CdromState → Bool
is_ready ready = true
is_ready _ = false

unfoldable start_read : ℕ → ℕ → CdromDrive → CdromDrive
start_read lba sectors d =
    if is_ready d.state
    then record d {
      lba = lba;
      sectors_remaining = sectors;
      data_buffer = [];
      state = reading;
      regs = lower_bit 3 0x04 (lower_bit 2 0x04 d.regs);
    }
    else d

unfoldable pop_front : List ℕ → Option ℕ × List ℕ
pop_front [] = (none, [])
pop_front (b ∷ bs) = (some b, bs)

-- what is read, and the drive after it
unfoldable read_data : CdromDrive → Option ℕ × CdromDrive
unfolding pop_front
read_data d = let (b, rest) = pop_front d.data_buffer in (b, record d { data_buffer = rest })
