-- ===== src/Save/Sections.antt =====
-- src/save.rs: what each section holds. A `load_*` gives the component with what the section has put
-- into it; a section that is too short is refused before anything is read.
use monte_lauro_ml_cd32_ppc.Base.{
  ℕ, ◌+◌, ◌*◌, List, [], ◌++◌, if◌then◌else◌, ◌==◌, length, take, update, Bytes, slice, write_cells,
  min,
}
use monte_lauro_ml_cd32_ppc.Base.Run.{Run, value}
use monte_lauro_ml_cd32_ppc.Base.Exec.{Exit, ok, pure, ◌>>=◌}
use monte_lauro_ml_cd32_ppc.Gpu.{Gpu}
use monte_lauro_ml_cd32_ppc.Cdrom.{
  CdromDrive, CdromState, no_disc, spinning_up, ready, reading, paused,
}
use monte_lauro_ml_cd32_ppc.Dma.{DmaController, DmaChannel}
use monte_lauro_ml_cd32_ppc.Bus.{Bus}
use monte_lauro_ml_cd32_ppc.Audio.{AudioSubsystem}
use monte_lauro_ml_cd32_ppc.Save.{SaveError, Reader, to_be, field, words, read_words}
use monte_lauro_ml_cd32_ppc.Save.Processors.{flag, sized, read_flag}

-- The bytes of a memory, and the loop-free copy of `load_mem_region`.
unfoldable pub save_mem_region : Bytes → List ℕ
save_mem_region b = slice b.cell 0 b.len

unfoldable pub load_mem_region : Bytes → List ℕ → Bytes
load_mem_region dst body = record dst {
  cell = write_cells dst.cell 0 (take (min dst.len (length body)) body);
}

unfoldable pub save_gpu : Gpu → List ℕ
save_gpu g =
    words g.regs 0 256
    ++ (to_be 8 g.frame_count ++ (to_be 4 g.fb_addr ++ to_be 1 (flag g.display_enabled)))

unfoldable pub read_gpu : Gpu → Reader Gpu
unfolding read_flag
read_gpu g = do
  regs ← read_words 256 0 g.regs
  frame_count ← field 8
  fb_addr ← field 4
  display_enabled ← read_flag
  pure (record g {
    regs = regs;
    frame_count = frame_count;
    fb_addr = fb_addr;
    display_enabled = display_enabled;
  })

unfoldable pub load_gpu : Gpu → List ℕ → Run (Exit SaveError Gpu)
unfolding sized read_gpu
load_gpu g = sized 7 (256 * 4 + 8 + 4 + 1) (read_gpu g)

unfoldable pub save_audio : AudioSubsystem → List ℕ
save_audio a = []

unfoldable pub load_audio : AudioSubsystem → List ℕ → Run (Exit SaveError AudioSubsystem)
load_audio a body = value (ok a)

-- `state as u8`, and back
abbrev pub state_number : CdromState → ℕ
state_number no_disc = 0
state_number spinning_up = 1
state_number ready = 2
state_number reading = 3
state_number paused = 4

abbrev pub state_of : ℕ → CdromState
state_of n =
    if n == 1
    then spinning_up
    else if n == 2
    then ready
    else if n == 3
    then reading
    else if n == 4
    then paused
    else no_disc

unfoldable pub save_cdrom : CdromDrive → List ℕ
save_cdrom d =
    words d.regs 0 64
    ++ (to_be 4 d.lba
        ++ (to_be 4 d.sectors_remaining
            ++ (to_be 1 (state_number d.state) ++ to_be 1 (flag d.disc_inserted))))

unfoldable pub read_cdrom : CdromDrive → Reader CdromDrive
unfolding read_flag
read_cdrom d = do
  regs ← read_words 64 0 d.regs
  lba ← field 4
  sectors_remaining ← field 4
  state ← field 1
  disc_inserted ← read_flag
  pure (record d {
    regs = regs;
    lba = lba;
    sectors_remaining = sectors_remaining;
    state = state_of state;
    disc_inserted = disc_inserted;
  })

unfoldable pub load_cdrom : CdromDrive → List ℕ → Run (Exit SaveError CdromDrive)
unfolding sized read_cdrom
load_cdrom d = sized 9 (64 * 4 + 4 + 4 + 1 + 1) (read_cdrom d)

unfoldable pub save_channel : DmaChannel → List ℕ
save_channel c =
    to_be 4 c.src_addr
    ++ (to_be 4 c.dst_addr ++ (to_be 4 c.transfer_size ++ (to_be 4 c.ctrl ++ to_be 4 c.status)))

unfoldable pub read_channel : DmaChannel → Reader DmaChannel
read_channel c = do
  src_addr ← field 4
  dst_addr ← field 4
  transfer_size ← field 4
  ctrl ← field 4
  status ← field 4
  pure (record c {
    src_addr = src_addr;
    dst_addr = dst_addr;
    transfer_size = transfer_size;
    ctrl = ctrl;
    status = status;
  })

unfoldable pub save_dma : DmaController → List ℕ
unfolding save_channel
save_dma d =
    words d.regs 0 16
    ++ (save_channel (d.channels 0)
        ++ (save_channel (d.channels 1)
            ++ (save_channel (d.channels 2) ++ save_channel (d.channels 3))))

unfoldable pub read_dma : DmaController → Reader DmaController
unfolding read_channel
read_dma d = do
  regs ← read_words 16 0 d.regs
  c0 ← read_channel (d.channels 0)
  c1 ← read_channel (d.channels 1)
  c2 ← read_channel (d.channels 2)
  c3 ← read_channel (d.channels 3)
  pure (record d {
    regs = regs;
    channels = update (update (update (update d.channels 0 c0) 1 c1) 2 c2) 3 c3;
  })

unfoldable pub load_dma : DmaController → List ℕ → Run (Exit SaveError DmaController)
unfolding sized read_dma
load_dma d = sized 10 (16 * 4 + 4 * (5 * 4)) (read_dma d)

unfoldable pub save_bus : Bus → List ℕ
save_bus b =
    to_be 4 b.mailbox_cmd
    ++ (to_be 4 b.mailbox_resp
        ++ (to_be 4 b.mailbox_status
            ++ (to_be 4 b.mailbox_arg
                ++ (to_be 4 b.miu_cfg
                    ++ (to_be 4 b.miu_stat ++ (to_be 4 b.miu_arb ++ to_be 4 b.miu_timing))))))

unfoldable pub read_bus : Bus → Reader Bus
read_bus b = do
  mailbox_cmd ← field 4
  mailbox_resp ← field 4
  mailbox_status ← field 4
  mailbox_arg ← field 4
  miu_cfg ← field 4
  miu_stat ← field 4
  miu_arb ← field 4
  miu_timing ← field 4
  pure (record b {
    mailbox_cmd = mailbox_cmd;
    mailbox_resp = mailbox_resp;
    mailbox_status = mailbox_status;
    mailbox_arg = mailbox_arg;
    miu_cfg = miu_cfg;
    miu_stat = miu_stat;
    miu_arb = miu_arb;
    miu_timing = miu_timing;
  })

unfoldable pub load_bus : Bus → List ℕ → Run (Exit SaveError Bus)
unfolding sized read_bus
load_bus b = sized 11 (8 * 4) (read_bus b)
