-- ===== src/Save/Tests.antt =====
-- The theorems of the save states at a new machine.
use monte_lauro_ml_cd32_ppc.Base.{ℕ, ◌++◌, [], ◌∷◌, false, ◌≡◌, ◌≢◌, arith, Bytes}
use monte_lauro_ml_cd32_ppc.Base.Int.{pos}
use monte_lauro_ml_cd32_ppc.Base.Run.{value, out_of_fuel}
use monte_lauro_ml_cd32_ppc.Base.Exec.{ok}
use monte_lauro_ml_cd32_ppc.Memory
use monte_lauro_ml_cd32_ppc.Memory.Access.{IsValid, new-IsValid}
use monte_lauro_ml_cd32_ppc.Gpu
use monte_lauro_ml_cd32_ppc.Cdrom
use monte_lauro_ml_cd32_ppc.Dma
use monte_lauro_ml_cd32_ppc.Bus
use monte_lauro_ml_cd32_ppc.Save.{to_be}
use monte_lauro_ml_cd32_ppc.Save.State.{Hardware, magic, save_state, load_state}
use monte_lauro_ml_cd32_ppc.Save.Ends.{load_state-ends}
use monte_lauro_ml_cd32_ppc.Save.Restored.{
  InRange, SavedState, restored, load_state-save_state-restored,
}

abbrev bios : Bytes
bios = record { len = 0; cell = λ i. 0 }

-- a machine whose program counters are at `pc`
abbrev machine : ℕ → Hardware
machine pc = record {
  ppc = record {
    regs = record {
      gpr = λ i. 7;
      pc = pc;
      lr = 1;
      ctr = 2;
      cr = 3;
      xer = 4;
      msr = 0x40;
      srr0 = 5;
      srr1 = 6;
      sr = λ i. 8;
      sdr1 = 9;
      ibat = λ i. 10;
      dbat = λ i. 11;
      tlb_miss = false;
    };
    halt = false;
    trace = false;
  };
  coldfire = record {
    regs = record { d = λ i. 12; a = λ i. 13; pc = pc; sr = 0x2700 };
    halt = false;
    trace = false;
  };
  bus = Bus.new bios;
  total_cycles = 0;
  ppc_cycles = 0;
  cf_cycles = 0;
  boot_complete = false;
  serial_out = [];
  cycle_acc = pos 0;
  ppc_hold = false;
}

machine-InRange : InRange (machine 0x100)
unfolding Bus.new Memory.new Gpu.new Cdrom.new Dma.new Dma.new_channel
machine-InRange = record {
  ppc = record {
    gpr = λ i. omega arith;
    pc = omega arith;
    lr = omega arith;
    ctr = omega arith;
    cr = omega arith;
    xer = omega arith;
    msr = omega arith;
    srr0 = omega arith;
    srr1 = omega arith;
    sr = λ i. omega arith;
    sdr1 = omega arith;
    ibat = λ i. omega arith;
    dbat = λ i. omega arith;
  };
  coldfire = record {
    d = λ i. omega arith;
    a = λ i. omega arith;
    pc = omega arith;
    sr = omega arith;
  };
  gpu = record { regs = λ i. omega arith; frame_count = omega arith; fb_addr = omega arith };
  cdrom = record { regs = λ i. omega arith; lba = omega arith; sectors_remaining = omega arith };
  dma = record {
    regs = λ i. omega arith;
    channels = λ i. record {
      src_addr = omega arith;
      dst_addr = omega arith;
      transfer_size = omega arith;
      ctrl = omega arith;
      status = omega arith;
    };
  };
  bus = record {
    mailbox_cmd = omega arith;
    mailbox_resp = omega arith;
    mailbox_status = omega arith;
    mailbox_arg = omega arith;
    miu_cfg = omega arith;
    miu_stat = omega arith;
    miu_arb = omega arith;
    miu_timing = omega arith;
  };
  mem = new-IsValid bios;
}

machine-IsValid : IsValid (machine 0x200).bus.mem
unfolding Bus.new
machine-IsValid = new-IsValid bios

load_state-save_state-restored_example :
    (load_state (save_state (machine 0x100)) (machine 0x200)
      ≡ value (restored (machine 0x100) (machine 0x200), ok tt))
    × SavedState (machine 0x100) (restored (machine 0x100) (machine 0x200))
load_state-save_state-restored_example =
    load_state-save_state-restored (machine 0x100) (machine 0x200) machine-InRange machine-IsValid

load_state-ends_example :
    load_state (magic ++ (to_be 4 1 ++ (0 ∷ []))) (machine 0x200) ≢ out_of_fuel
load_state-ends_example = load_state-ends (magic ++ (to_be 4 1 ++ (0 ∷ []))) (machine 0x200)
