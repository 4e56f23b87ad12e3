-- ===== src/Dma.antt =====
-- src/dma.rs: the four channels of the DMA controller. A handler returns the new state; `tick`
-- also returns the transfers that the caller carries out. `u32` operations that wrap are written
-- with `u32`, and a `Vec` that is pushed to is a list in the order of the pushes.
pub mod Channel
pub mod Drain
pub mod Stall
pub mod Priority
pub mod Registers
mod Tests
use monte_lauro_ml_cd32_ppc.Base.{
  ℕ, zero, suc, ◌+◌, ◌-◌, ◌*◌, ◌/◌, ◌%◌, ◌^◌, min, Bool, true, false, not, List, [], ◌∷◌, ◌++◌,
  if◌then◌else◌, ltb, ◌==◌, ◌&&◌, update, u32, test_bit, set_bit, clear_bit,
}

pub data DmaChannelId : Type 0 where
  cdrom gpu audio cold_fire : DmaChannelId

-- `ch_id as usize`
abbrev index : DmaChannelId → ℕ
index cdrom = 0
index gpu = 1
index audio = 2
index cold_fire = 3

pub data DmaTransfer : Type 0 where
  copy : DmaChannelId → ℕ → ℕ → ℕ → DmaTransfer  -- channel, src, dst, size
  done : DmaChannelId → DmaTransfer

pub data DmaState : Type 0 where
  idle bursting finished : DmaState

-- `state != DmaState::Bursting`, negated
abbrev is_bursting : DmaState → Bool
is_bursting bursting = true
is_bursting _ = false

pub record DmaChannel : Type 0 where
  pub src_addr : ℕ
  pub dst_addr : ℕ
  pub transfer_size : ℕ
  pub burst_size : ℕ
  pub ctrl : ℕ
  pub status : ℕ
  pub state : DmaState
  pub bytes_this_burst : ℕ

pub record DmaController : Type 0 where
  pub channels : ℕ → DmaChannel
  pub regs : ℕ → ℕ

unfoldable pub new_channel : DmaChannel
new_channel = record {
  src_addr = 0;
  dst_addr = 0;
  transfer_size = 0;
  burst_size = 64;
  ctrl = 0;
  status = 0;
  state = idle;
  bytes_this_burst = 0;
}

unfoldable pub new : DmaController
new = record { channels = λ i. new_channel; regs = λ i. 0 }

unfoldable start : DmaChannel → DmaChannel
start ch =
    if ltb 0 ch.transfer_size && (not (ch.src_addr == 0) && not (ch.dst_addr == 0))
    then record ch {
      state = bursting;
      bytes_this_burst = 0;
      status = clear_bit 2 (clear_bit 1 (set_bit 0 ch.status));
    }
    else ch

-- one round of the loop over the words of a burst, less its push
unfoldable pub advance : DmaChannel → DmaChannel
advance ch = record ch {
  src_addr = u32 (ch.src_addr + 4);
  dst_addr = u32 (ch.dst_addr + 4);
  transfer_size = ch.transfer_size - 4;
  bytes_this_burst = u32 (ch.bytes_this_burst + 4);
}

-- `for _ in 0..words_in_burst`: the channel after the words, and what was pushed
unfoldable pub copy_words : ℕ → DmaChannelId → DmaChannel → DmaChannel × List DmaTransfer
copy_words zero id ch = (ch, [])
copy_words (suc n) id ch =
    let (ch', rest) = copy_words n id (advance ch) in
    (ch', copy id ch.src_addr ch.dst_addr 4 ∷ rest)

-- `words_in_burst`
abbrev words_in_burst : DmaChannel → ℕ
words_in_burst ch =
    min ((ch.burst_size + 2 ^ 32 - ch.bytes_this_burst) % 2 ^ 32) ch.transfer_size / 4

-- The body of the loop of `tick` over the channels.
unfoldable pub tick_channel : DmaChannelId → DmaChannel → DmaChannel × List DmaTransfer
tick_channel id ch =
    if is_bursting ch.state
    then if words_in_burst ch == 0
      then if ch.transfer_size == 0
        then (
          record ch { state = finished; status = set_bit 1 (clear_bit 0 ch.status) },
          done id ∷ [],
        )
        else (record ch { bytes_this_burst = 0 }, [])
      else copy_words (words_in_burst ch) id ch
    else (ch, [])

unfoldable pub tick_order : List DmaChannelId → DmaController → DmaController × List DmaTransfer
tick_order [] c = (c, [])
tick_order (id ∷ ids) c =
    let (ch, now) = tick_channel id (c.channels (index id)) in
    let (c', later) = tick_order ids (record c { channels = update c.channels (index id) ch }) in
    (c', now ++ later)

unfoldable pub tick : DmaController → DmaController × List DmaTransfer
tick c = tick_order (cdrom ∷ gpu ∷ audio ∷ cold_fire ∷ []) c

unfoldable mark_error : DmaChannelId → DmaController → DmaController
mark_error id c =
    let ch = c.channels (index id) in
    record c {
      channels =
          update c.channels (index id)
            (record ch { state = finished; status = set_bit 2 (clear_bit 0 ch.status) });
    }

-- a write to the control register of a channel
unfoldable write_ctrl : ℕ → DmaChannel → DmaChannel
unfolding start
write_ctrl val ch =
    let c1 = record ch { ctrl = val } in
    let c2 = if test_bit 0 val then start c1 else c1 in
    if test_bit 1 val then record c2 { state = idle; status = 0 } else c2

-- the `match reg_off` of `write_reg`
unfoldable pub write_channel : ℕ → ℕ → DmaChannel → DmaChannel
unfolding write_ctrl
write_channel reg_off val ch =
    if reg_off == 0x00
    then record ch { src_addr = val }
    else if reg_off == 0x04
    then record ch { dst_addr = val }
    else if reg_off == 0x08
    then record ch { transfer_size = val }
    else if reg_off == 0x0C
    then write_ctrl val ch
    else ch

unfoldable pub write_reg : ℕ → ℕ → DmaController → DmaController
write_reg addr val c =
    let offset = addr % 256 in
    let ch_idx = offset / 0x10 in
    let reg_idx = (offset - 0x40) / 4 in
    if ltb offset 0x40
    then if ltb ch_idx 4
      then record c {
        channels = update c.channels ch_idx (write_channel (offset % 0x10) val (c.channels ch_idx));
      }
      else c
    else if ltb offset 0x50
    then if ltb reg_idx 4 then record c { regs = update c.regs reg_idx val } else c
    else c

-- the `match reg_off` of `read_reg`
unfoldable pub read_channel : ℕ → DmaChannel → ℕ
read_channel reg_off ch =
    if reg_off == 0x00
    then ch.src_addr
    else if reg_off == 0x04
    then ch.dst_addr
    else if reg_off == 0x08
    then ch.transfer_size
    else if reg_off == 0x0C
    then ch.status
    else 0

unfoldable pub read_reg : ℕ → DmaController → ℕ
read_reg addr c =
    let offset = addr % 256 in
    let ch_idx = offset / 0x10 in
    let reg_idx = (offset - 0x40) / 4 in
    if ltb offset 0x40
    then if ltb ch_idx 4 then read_channel (offset % 0x10) (c.channels ch_idx) else 0
    else if ltb offset 0x50
    then if ltb reg_idx 4 then c.regs reg_idx else 0
    else 0
