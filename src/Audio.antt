-- ===== src/Audio.antt =====
-- src/audio/dsp.rs: the sample FIFOs, the mixer and the registers of the audio subsystem. An `i16`
-- or `i32` is an integer; products and sums of the mixer wrap in 32 bits (`i32` of Base/Int). The eight
-- channels are a function of their number.
pub mod Fifo
pub mod Mixer
pub mod Shares
pub mod Exact
pub mod Registers
mod Tests
use monte_lauro_ml_cd32_ppc.Base.{
  ℕ, zero, suc, ◌+◌, ◌-◌, ◌*◌, ◌/◌, ◌%◌, ◌^◌, Bool, true, false, Option, none, some, List, [], ◌∷◌,
  if◌then◌else◌, ltb, ◌==◌, update, u32, put_bits, test_bit,
}
use monte_lauro_ml_cd32_ppc.Base.Int.{ℤ, pos, negsuc, sub_ℕ, ◌+ℤ◌, ◌*ℤ◌, ltb_ℤ, i32}

abbrev num_channels : ℕ
num_channels = 8

abbrev fifo_size : ℕ
fifo_size = 2048

abbrev sample_rate : ℕ
sample_rate = 44100

pub record AudioChannel : Type 0 where
  pub fifo : ℕ → ℤ
  pub rd_ptr : ℕ
  pub wr_ptr : ℕ
  pub enabled : Bool
  pub volume : ℕ  -- 0..1024
  pub pan : ℕ  -- 0..255

pub record AudioSubsystem : Type 0 where
  pub channels : ℕ → AudioChannel
  pub master_volume : ℕ
  pub output_l : ℤ
  pub output_r : ℤ
  pub dsp_regs : ℕ → ℕ
  pub cycle_accum : ℕ

unfoldable pub new_channel : AudioChannel
new_channel = record {
  fifo = λ i. pos 0;
  rd_ptr = 0;
  wr_ptr = 0;
  enabled = false;
  volume = 1024;
  pan = 128;
}

unfoldable pub new : AudioSubsystem
new = record {
  channels = λ i. new_channel;
  master_volume = 1024;
  output_l = pos 0;
  output_r = pos 0;
  dsp_regs = λ i. 0;
  cycle_accum = 0;
}

-- `AudioChannel::push_sample`
unfoldable push : ℤ → AudioChannel → AudioChannel
push s ch = record ch { fifo = update ch.fifo ch.wr_ptr s; wr_ptr = (ch.wr_ptr + 1) % fifo_size }

-- `AudioChannel::read_sample`
unfoldable pub read_sample : AudioChannel → ℤ × AudioChannel
read_sample ch = (
  ch.fifo ch.rd_ptr,
  if ch.rd_ptr == ch.wr_ptr then ch else record ch { rd_ptr = (ch.rd_ptr + 1) % fifo_size },
)

-- `a / k` on `i32`, which rounds towards zero
abbrev div_trunc : ℤ → ℕ → ℤ
div_trunc (pos n) k = pos (n / k)
div_trunc (negsuc n) k = sub_ℕ 0 (suc n / k)

-- What a sample of a channel adds to the left and to the right.
unfoldable pub panned : AudioChannel → ℤ → ℤ × ℤ
panned ch s =
    let s_vol = div_trunc (i32 (s *ℤ pos ch.volume)) 1024 in
    (div_trunc (i32 (sub_ℕ 255 ch.pan *ℤ s_vol)) 255, div_trunc (i32 (pos ch.pan *ℤ s_vol)) 255)

-- a channel's part in the loop of `tick`: the two sums and the channel after it
unfoldable pub mix_channel : AudioChannel → ℤ → ℤ → ℤ × ℤ × AudioChannel
mix_channel ch mix_l mix_r =
    let (s, ch') = read_sample ch in
    let (l, r) = panned ch s in
    if ch.enabled then (i32 (mix_l +ℤ l), i32 (mix_r +ℤ r), ch') else (mix_l, mix_r, ch)

-- `for ch in &mut self.channels`, from channel `i` on
unfoldable pub mix_from : ℕ → ℕ → (ℕ → AudioChannel) → ℤ → ℤ → ℤ × ℤ × (ℕ → AudioChannel)
mix_from zero i chs mix_l mix_r = (mix_l, mix_r, chs)
mix_from (suc n) i chs mix_l mix_r =
    let (l, r, ch) = mix_channel (chs i) mix_l mix_r in mix_from n (i + 1) (update chs i ch) l r

-- `x.clamp(i16::MIN as i32, i16::MAX as i32)`
abbrev clamp16 : ℤ → ℤ
clamp16 x =
    if ltb_ℤ x (negsuc 32767) then negsuc 32767 else if ltb_ℤ (pos 32767) x then pos 32767 else x

abbrev sample_clock : ℕ
sample_clock = 140_000_000 / sample_rate

-- a tick on which a sample is due
unfoldable pub mix : AudioSubsystem → AudioSubsystem
mix a =
    let (l, r, chs) = mix_from num_channels 0 a.channels (pos 0) (pos 0) in
    record a {
      channels = chs;
      output_l = clamp16 (div_trunc (i32 (l *ℤ pos a.master_volume)) 1024);
      output_r = clamp16 (div_trunc (i32 (r *ℤ pos a.master_volume)) 1024);
    }

unfoldable pub tick : ℕ → AudioSubsystem → AudioSubsystem
tick cycles a =
    let accum = u32 (a.cycle_accum + cycles) in
    if ltb accum sample_clock
    then record a { cycle_accum = accum }
    else mix (record a { cycle_accum = accum - sample_clock })

unfoldable push_sample : ℕ → ℤ → AudioSubsystem → AudioSubsystem
unfolding push
push_sample channel sample a =
    if ltb channel num_channels
    then record a { channels = update a.channels channel (push sample (a.channels channel)) }
    else a

unfoldable set_channel_enabled : ℕ → Bool → AudioSubsystem → AudioSubsystem
set_channel_enabled channel on a =
    if ltb channel num_channels
    then record a {
      channels = update a.channels channel (record (a.channels channel) { enabled = on });
    }
    else a

-- `((addr & 0xFF) >> 2)`, which is below 64 for every address
abbrev pub reg_index : ℕ → ℕ
reg_index addr = addr % 256 / 4

unfoldable pub read_byte : AudioSubsystem → ℕ → ℕ
read_byte a addr = if ltb (reg_index addr) 64 then a.dsp_regs (reg_index addr) % 256 else 0

unfoldable pub read_half : AudioSubsystem → ℕ → ℕ
read_half a addr = if ltb (reg_index addr) 64 then a.dsp_regs (reg_index addr) % 2 ^ 16 else 0

unfoldable pub read_word : AudioSubsystem → ℕ → Option ℕ
read_word a addr = if ltb (reg_index addr) 64 then some (a.dsp_regs (reg_index addr)) else none

unfoldable pub write_byte : ℕ → ℕ → AudioSubsystem → AudioSubsystem
write_byte addr val a =
    let idx = reg_index addr in
    if addr % 4 == 0
    then if ltb idx 64
      then record a { dsp_regs = update a.dsp_regs idx (put_bits 0 8 val (a.dsp_regs idx)) }
      else a
    else a

unfoldable pub write_half : ℕ → ℕ → AudioSubsystem → AudioSubsystem
write_half addr val a =
    let idx = reg_index addr in
    if addr % 2 == 0
    then if ltb idx 64
      then record a { dsp_regs = update a.dsp_regs idx (put_bits 0 16 val (a.dsp_regs idx)) }
      else a
    else a

-- the loop over the enable bits of register 0
unfoldable pub enable_from : ℕ → ℕ → ℕ → (ℕ → AudioChannel) → ℕ → AudioChannel
enable_from zero ch val chs = chs
enable_from (suc n) ch val chs =
    enable_from n (ch + 1) val (update chs ch (record (chs ch) { enabled = test_bit ch val }))

unfoldable pub write_word : ℕ → ℕ → AudioSubsystem → AudioSubsystem
write_word addr val a =
    let idx = reg_index addr in
    let a' = record a { dsp_regs = update a.dsp_regs idx val } in
    if addr % 4 == 0
    then if ltb idx 64
      then if idx == 0
        then record a' { channels = enable_from num_channels 0 val a.channels }
        else a'
      else a
    else a

unfoldable output_stereo : AudioSubsystem → ℤ × ℤ
output_stereo a = (a.output_l, a.output_r)
