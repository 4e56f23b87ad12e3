-- ===== src/Save/RoundTrips.antt =====
-- The sections of a save state: what `save_*` has written of a component, `load_*` puts into another.
use monte_lauro_ml_cd32_ppc.Base.{ℕ, ◌^◌, ◌<◌, update, ◌≡◌, refl, ap, ◌∙◌, arith}
use monte_lauro_ml_cd32_ppc.Base.Run.{value}
use monte_lauro_ml_cd32_ppc.Base.Exec.{ok}
use monte_lauro_ml_cd32_ppc.ColdFire.{ColdFire}
use monte_lauro_ml_cd32_ppc.Gpu.{Gpu}
use monte_lauro_ml_cd32_ppc.Cdrom.{
  CdromDrive, CdromState, no_disc, spinning_up, ready, reading, paused,
}
use monte_lauro_ml_cd32_ppc.Dma.{DmaController, DmaChannel}
use monte_lauro_ml_cd32_ppc.Bus.{Bus}
use monte_lauro_ml_cd32_ppc.Ppc.{Ppu}
use monte_lauro_ml_cd32_ppc.Save.Sections.{
  save_gpu, read_gpu, load_gpu, save_cdrom, read_cdrom, load_cdrom, state_number, state_of,
  save_dma, read_dma, load_dma, save_channel, read_channel, save_bus, read_bus, load_bus,
}
use monte_lauro_ml_cd32_ppc.Save.Processors.{
  save_ppc, read_ppc, load_ppc, save_cf, read_cf, load_cf,
}
use monte_lauro_ml_cd32_ppc.Save.Whole.{size_rules}
use monte_lauro_ml_cd32_ppc.Save.Reads.{
  Reads, filled, Reads-pure, Reads-bind, Reads-u32, Reads-u16, Reads-u8, Reads-flag, Reads-words,
  sized-Reads, Reads-u64,
}

abbrev pub Words : (ℕ → ℕ) → Type 0
Words f = (i : ℕ) → f i < 2 ^ 32

-- The machine words of a component are in their ranges.
pub record CfInRange (c : ColdFire) : Type 0 where
  pub d : Words c.regs.d
  pub a : Words c.regs.a
  pub pc : c.regs.pc < 2 ^ 32
  pub sr : c.regs.sr < 2 ^ 16

abbrev pub restored_cf : ColdFire → ColdFire → ColdFire
restored_cf c c' = record c' {
  regs = record {
    d = filled 8 0 c.regs.d c'.regs.d;
    a = filled 8 0 c.regs.a c'.regs.a;
    pc = c.regs.pc;
    sr = c.regs.sr;
  };
  halt = c.halt;
}

pub load_cf-save_cf :
    (c c' : ColdFire) → CfInRange c → load_cf c' (save_cf c) ≡ value (ok (restored_cf c c'))
unfolding load_cf save_cf read_cf
load_cf-save_cf c c' r =
    sized-Reads 2 71 (restored_cf c c')
      (Reads-bind _ (Reads-words 8 0 c.regs.d c'.regs.d r.d) (
        Reads-bind _ (Reads-words 8 0 c.regs.a c'.regs.a r.a) (
          Reads-bind _ (Reads-u32 r.pc)
            (Reads-bind _ (Reads-u16 r.sr) (Reads-bind _ Reads-flag Reads-pure)))))
      (simp size_rules (omega arith))

pub record GpuInRange (g : Gpu) : Type 0 where
  pub regs : Words g.regs
  pub frame_count : g.frame_count < 2 ^ 64
  pub fb_addr : g.fb_addr < 2 ^ 32

abbrev pub restored_gpu : Gpu → Gpu → Gpu
restored_gpu g g' = record g' {
  regs = filled 256 0 g.regs g'.regs;
  frame_count = g.frame_count;
  fb_addr = g.fb_addr;
  display_enabled = g.display_enabled;
}

pub load_gpu-save_gpu :
    (g g' : Gpu) → GpuInRange g → load_gpu g' (save_gpu g) ≡ value (ok (restored_gpu g g'))
unfolding load_gpu save_gpu read_gpu
load_gpu-save_gpu g g' r =
    sized-Reads 7 1037 (restored_gpu g g')
      (Reads-bind _ (Reads-words 256 0 g.regs g'.regs r.regs) (
        Reads-bind _ (Reads-u64 r.frame_count)
          (Reads-bind _ (Reads-u32 r.fb_addr) (Reads-bind _ (Reads-flag) (Reads-pure)))))
      (simp size_rules (omega arith))

state_back : (s : CdromState) → state_of (state_number s) ≡ s
state_back no_disc = refl
state_back spinning_up = refl
state_back ready = refl
state_back reading = refl
state_back paused = refl

state_lt : (s : CdromState) → state_number s < 2 ^ 8
state_lt no_disc = omega arith
state_lt spinning_up = omega arith
state_lt ready = omega arith
state_lt reading = omega arith
state_lt paused = omega arith

pub record CdromInRange (d : CdromDrive) : Type 0 where
  pub regs : Words d.regs
  pub lba : d.lba < 2 ^ 32
  pub sectors_remaining : d.sectors_remaining < 2 ^ 32

abbrev pub restored_cdrom : CdromDrive → CdromDrive → CdromDrive
restored_cdrom d d' = record d' {
  regs = filled 64 0 d.regs d'.regs;
  lba = d.lba;
  sectors_remaining = d.sectors_remaining;
  state = d.state;
  disc_inserted = d.disc_inserted;
}

pub load_cdrom-save_cdrom :
    (d d' : CdromDrive)
    → CdromInRange d
    → load_cdrom d' (save_cdrom d) ≡ value (ok (restored_cdrom d d'))
unfolding load_cdrom save_cdrom read_cdrom
load_cdrom-save_cdrom d d' r =
    sized-Reads 9 266 (record (restored_cdrom d d') { state = state_of (state_number d.state) })
      (Reads-bind _ (Reads-words 64 0 d.regs d'.regs r.regs) (
        Reads-bind _ (Reads-u32 r.lba) (
          Reads-bind _ (Reads-u32 r.sectors_remaining)
            (Reads-bind _ (Reads-u8 (state_lt d.state)) (Reads-bind _ (Reads-flag) (Reads-pure))))))
      (simp size_rules (omega arith))
    ∙ ap (λ x. value (ok (record (restored_cdrom d d') { state = x }))) (state_back d.state)

pub record BusInRange (b : Bus) : Type 0 where
  pub mailbox_cmd : b.mailbox_cmd < 2 ^ 32
  pub mailbox_resp : b.mailbox_resp < 2 ^ 32
  pub mailbox_status : b.mailbox_status < 2 ^ 32
  pub mailbox_arg : b.mailbox_arg < 2 ^ 32
  pub miu_cfg : b.miu_cfg < 2 ^ 32
  pub miu_stat : b.miu_stat < 2 ^ 32
  pub miu_arb : b.miu_arb < 2 ^ 32
  pub miu_timing : b.miu_timing < 2 ^ 32

abbrev pub restored_bus : Bus → Bus → Bus
restored_bus b b' = record b' {
  mailbox_cmd = b.mailbox_cmd;
  mailbox_resp = b.mailbox_resp;
  mailbox_status = b.mailbox_status;
  mailbox_arg = b.mailbox_arg;
  miu_cfg = b.miu_cfg;
  miu_stat = b.miu_stat;
  miu_arb = b.miu_arb;
  miu_timing = b.miu_timing;
}

pub load_bus-save_bus :
    (b b' : Bus) → BusInRange b → load_bus b' (save_bus b) ≡ value (ok (restored_bus b b'))
unfolding load_bus save_bus read_bus
load_bus-save_bus b b' r =
    sized-Reads 11 32 (restored_bus b b')
      (Reads-bind _ (Reads-u32 r.mailbox_cmd) (
        Reads-bind _ (Reads-u32 r.mailbox_resp) (
          Reads-bind _ (Reads-u32 r.mailbox_status) (
            Reads-bind _ (Reads-u32 r.mailbox_arg) (
              Reads-bind _ (Reads-u32 r.miu_cfg) (
                Reads-bind _ (Reads-u32 r.miu_stat) (
                  Reads-bind _ (Reads-u32 r.miu_arb)
                    (Reads-bind _ (Reads-u32 r.miu_timing) (Reads-pure)))))))))
      (omega arith)

pub record ChannelInRange (c : DmaChannel) : Type 0 where
  pub src_addr : c.src_addr < 2 ^ 32
  pub dst_addr : c.dst_addr < 2 ^ 32
  pub transfer_size : c.transfer_size < 2 ^ 32
  pub ctrl : c.ctrl < 2 ^ 32
  pub status : c.status < 2 ^ 32

abbrev restored_channel : DmaChannel → DmaChannel → DmaChannel
restored_channel c c' = record c' {
  src_addr = c.src_addr;
  dst_addr = c.dst_addr;
  transfer_size = c.transfer_size;
  ctrl = c.ctrl;
  status = c.status;
}

Reads-channel :
    (c c' : DmaChannel)
    → ChannelInRange c
    → Reads (read_channel c') (save_channel c) (restored_channel c c')
unfolding read_channel save_channel
Reads-channel c c' r = Reads-bind _ (Reads-u32 r.src_addr) (
    Reads-bind _ (Reads-u32 r.dst_addr) (
      Reads-bind _ (Reads-u32 r.transfer_size)
        (Reads-bind _ (Reads-u32 r.ctrl) (Reads-bind _ (Reads-u32 r.status) (Reads-pure)))))

pub record DmaInRange (d : DmaController) : Type 0 where
  pub regs : Words d.regs
  pub channels : (i : ℕ) → ChannelInRange (d.channels i)

abbrev channel_from : DmaController → DmaController → ℕ → DmaChannel
channel_from d d' i = restored_channel (d.channels i) (d'.channels i)

abbrev pub restored_dma : DmaController → DmaController → DmaController
restored_dma d d' =
    let c = channel_from d d' in
    record d' {
      regs = filled 16 0 d.regs d'.regs;
      channels = update (update (update (update d'.channels 0 (c 0)) 1 (c 1)) 2 (c 2)) 3 (c 3);
    }

pub load_dma-save_dma :
    (d d' : DmaController)
    → DmaInRange d
    → load_dma d' (save_dma d) ≡ value (ok (restored_dma d d'))
unfolding load_dma save_dma read_dma
load_dma-save_dma d d' r =
    sized-Reads 10 144 (restored_dma d d')
      (Reads-bind _ (Reads-words 16 0 d.regs d'.regs r.regs) (
        Reads-bind _ (Reads-channel (d.channels 0) (d'.channels 0) (r.channels 0)) (
          Reads-bind _ (Reads-channel (d.channels 1) (d'.channels 1) (r.channels 1)) (
            Reads-bind _ (Reads-channel (d.channels 2) (d'.channels 2) (r.channels 2)) (
              Reads-bind _ (Reads-channel (d.channels 3) (d'.channels 3) (r.channels 3))
                (Reads-pure))))))
      (simp size_rules (omega arith))

pub record PpcInRange (p : Ppu) : Type 0 where
  pub gpr : Words p.regs.gpr
  pub pc : p.regs.pc < 2 ^ 32
  pub lr : p.regs.lr < 2 ^ 32
  pub ctr : p.regs.ctr < 2 ^ 32
  pub cr : p.regs.cr < 2 ^ 32
  pub xer : p.regs.xer < 2 ^ 32
  pub msr : p.regs.msr < 2 ^ 32
  pub srr0 : p.regs.srr0 < 2 ^ 32
  pub srr1 : p.regs.srr1 < 2 ^ 32
  pub sr : Words p.regs.sr
  pub sdr1 : p.regs.sdr1 < 2 ^ 32
  pub ibat : Words p.regs.ibat
  pub dbat : Words p.regs.dbat

abbrev pub restored_ppc : Ppu → Ppu → Ppu
restored_ppc p p' = record p' {
  regs = record p'.regs {
    gpr = filled 32 0 p.regs.gpr p'.regs.gpr;
    pc = p.regs.pc;
    lr = p.regs.lr;
    ctr = p.regs.ctr;
    cr = p.regs.cr;
    xer = p.regs.xer;
    msr = p.regs.msr;
    srr0 = p.regs.srr0;
    srr1 = p.regs.srr1;
    sr = filled 16 0 p.regs.sr p'.regs.sr;
    sdr1 = p.regs.sdr1;
    ibat = filled 8 0 p.regs.ibat p'.regs.ibat;
    dbat = filled 8 0 p.regs.dbat p'.regs.dbat;
  };
  halt = p.halt;
}

pub load_ppc-save_ppc :
    (p p' : Ppu) → PpcInRange p → load_ppc p' (save_ppc p) ≡ value (ok (restored_ppc p p'))
unfolding load_ppc save_ppc read_ppc
load_ppc-save_ppc p p' r =
    sized-Reads 1 293 (restored_ppc p p')
      (Reads-bind _ (Reads-words 32 0 p.regs.gpr p'.regs.gpr r.gpr) (
        Reads-bind _ (Reads-u32 r.pc) (
          Reads-bind _ (Reads-u32 r.lr) (
            Reads-bind _ (Reads-u32 r.ctr) (
              Reads-bind _ (Reads-u32 r.cr) (
                Reads-bind _ (Reads-u32 r.xer) (
                  Reads-bind _ (Reads-u32 r.msr) (
                    Reads-bind _ (Reads-u32 r.srr0) (
                      Reads-bind _ (Reads-u32 r.srr1) (
                        Reads-bind _ (Reads-words 16 0 p.regs.sr p'.regs.sr r.sr) (
                          Reads-bind _ (Reads-u32 r.sdr1) (
                            Reads-bind _ (Reads-words 8 0 p.regs.ibat p'.regs.ibat r.ibat) (
                              Reads-bind _ (Reads-words 8 0 p.regs.dbat p'.regs.dbat r.dbat)
                                (Reads-bind _ (Reads-flag) (Reads-pure)))))))))))))))
      (simp size_rules (omega arith))
