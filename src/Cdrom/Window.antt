-- ===== src/Cdrom/Window.antt =====
-- The register window of the drive, and the states that a command or a tick may lead to.
use monte_lauro_ml_cd32_ppc.Base.{
  ℕ, ◌%◌, ◌<◌, some, if◌then◌else◌, ltb, ◌≡◌, ◌≢◌, refl, arith, inl, inr, mod_four_cases, put_bits,
  update, Bytes,
}
use monte_lauro_ml_cd32_ppc.Base.Run.{value}
use monte_lauro_ml_cd32_ppc.Cdrom.{CdromDrive, ready, start_read, insert_disc, tick, tick_in}
use monte_lauro_ml_cd32_ppc.Cdrom.Registers.{
  reg_index, read_byte, read_word, write_byte, write_word, handle_reg_write, byte_shift,
}

-- A word that is written, at a multiple of four, to a register of index below 64 other than the
-- command register is read back, the other registers keep their values, and so do the state of
-- the drive and its data buffer.
reg_word-write_word :
    (addr val : ℕ) (d : CdromDrive)
    → addr % 4 ≡ 0
    → reg_index addr < 64
    → reg_index addr ≢ 0x10
    → (d' : CdromDrive) × (write_word addr val d ≡ value d')
      × (read_word d' addr ≡ some val)
      × ((i : ℕ) → i ≢ reg_index addr → d'.regs i ≡ d.regs i)
      × (d'.state ≡ d.state)
      × (d'.data_buffer ≡ d.data_buffer)
unfolding write_word read_word handle_reg_write
reg_word-write_word addr val d h1 h2 h3 = (
  record d { regs = update d.regs (reg_index addr) val },
  ground arith,
  ground arith,
  λ i ne. ground arith,
  refl,
  refl,
)

put_bits-low : (l v x : ℕ) → l % 4 ≢ 0 → put_bits (byte_shift l) 8 v x % 256 ≡ x % 256
put_bits-low l v x h = elim (mod_four_cases l) [
  | inl e ↦ absurd (h e)
  | inr (inl e) ↦ rw e (omega arith)
  | inr (inr (inl e)) ↦ rw e (omega arith)
  | inr (inr (inr e)) ↦ rw e (omega arith)
]

-- A byte that is written at an address which is no multiple of four, outside of the command
-- register, goes to the lane of the register that the address names, but `read_byte` always
-- gives the low byte: what it gives at that address is what it gave before the write, whatever
-- was written.
read_byte-write_byte_stale :
    (addr val : ℕ) (d : CdromDrive)
    → addr % 4 ≢ 0
    → reg_index addr ≢ 0x10
    → (d' : CdromDrive) × (write_byte addr val d ≡ value d')
      × (read_byte d' addr ≡ read_byte d addr)
unfolding write_byte read_byte handle_reg_write
read_byte-write_byte_stale addr val d h1 h2 = (
  if ltb (reg_index addr) 64
      then record d {
        regs =
            update d.regs (reg_index addr)
              (put_bits (byte_shift addr) 8 val (d.regs (reg_index addr)));
      }
      else d,
  ground arith,
  ground (arith, put_bits-low addr val (d.regs (reg_index addr))),
)

-- A disc that is inserted into any drive is ready after one tick, and a read that is asked for
-- before that is ignored.
pub insert_then_tick :
    (disc : Bytes) (d : CdromDrive)
    → ((tick (insert_disc disc d)).state ≡ ready)
      × ((tick (insert_disc disc d)).virtual_disc ≡ some disc)
      × ((lba n : ℕ) → start_read lba n (insert_disc disc d) ≡ insert_disc disc d)
unfolding tick tick_in insert_disc start_read
insert_then_tick disc d = (refl, refl, λ lba n. refl)
