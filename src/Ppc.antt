-- ===== src/Ppc.antt =====
-- src/cpu/ppc603e.rs: the PowerPC 603e core. This file has its registers, the fields of an instruction,
-- and the ways in which an instruction reads and writes the registers and the bus.
mod Tests
pub mod Mmu
pub mod Arith
pub mod Logic
pub mod Storage
pub mod Special
pub mod Branch
pub mod Dispatch
pub mod Ends
pub mod Branches
pub mod Interrupts
pub mod Sums
pub mod Registers
pub mod Pages
pub mod Rotations
pub mod Accesses
use monte_lauro_ml_cd32_ppc.Base.{
  ℕ, zero, suc, ◌+◌, ◌-◌, ◌*◌, ◌/◌, ◌%◌, ◌^◌, Bool, true, false, Option, none, some, if◌then◌else◌,
  ltb, leb, ◌==◌, update, bits, set_bit, clear_bit, sext16, put_bits, ◌≡◌,
}
use monte_lauro_ml_cd32_ppc.Base.Run.{Run, value, panic, out_of_fuel}
use monte_lauro_ml_cd32_ppc.Base.Exec.{Exit, ok, fault, Exec, Done}
use monte_lauro_ml_cd32_ppc.Bus.Interface.{BusInterface}

pub data PpcError : Type 0 where
  illegal_instruction : ℕ → PpcError
  page_fault : ℕ → PpcError
  alignment_fault : ℕ → PpcError

pub record PpcRegs : Type 0 where
  pub gpr : ℕ → ℕ
  pub pc : ℕ
  pub lr : ℕ
  pub ctr : ℕ
  pub cr : ℕ
  pub xer : ℕ
  pub msr : ℕ
  pub srr0 : ℕ
  pub srr1 : ℕ
  pub sr : ℕ → ℕ
  pub sdr1 : ℕ
  pub ibat : ℕ → ℕ
  pub dbat : ℕ → ℕ
  pub tlb_miss : Bool

pub record Ppu : Type 0 where
  pub regs : PpcRegs
  pub halt : Bool
  pub trace : Bool

-- `PpcRegs::default()`
abbrev cleared : PpcRegs
cleared = record {
  gpr = λ i. 0;
  pc = 0;
  lr = 0;
  ctr = 0;
  cr = 0;
  xer = 0;
  msr = 0;
  srr0 = 0;
  srr1 = 0;
  sr = λ i. 0;
  sdr1 = 0;
  ibat = λ i. 0;
  dbat = λ i. 0;
  tlb_miss = false;
}

unfoldable pub reset : Ppu → Ppu
reset p = record {
  regs = record cleared { pc = 0x0000_0100; msr = 0x0000_0040 };
  halt = false;
  trace = false;
}

unfoldable pub new : Ppu
unfolding reset
new = reset (record { regs = cleared; halt = false; trace = false })

-- the fields of an instruction: `(insn >> 21) & 0x1F` and the like
abbrev pub rd_of : ℕ → ℕ
rd_of insn = bits 21 5 insn

abbrev pub ra_of : ℕ → ℕ
ra_of insn = bits 16 5 insn

abbrev rb_of : ℕ → ℕ
rb_of insn = bits 11 5 insn

-- `self.regs.gpr[i] = v`
abbrev pub set_gpr : ℕ → ℕ → PpcRegs → PpcRegs
set_gpr i v r = record r { gpr = update r.gpr i v }

-- `if ra == 0 { 0 } else { self.regs.gpr[ra] }`
abbrev gpr_or_zero : ℕ → PpcRegs → ℕ
gpr_or_zero ra r = if ra == 0 then 0 else r.gpr ra

-- `!x` on `u32`
abbrev pub not32 : ℕ → ℕ
not32 x = 2 ^ 32 - 1 - x

-- the flag of `overflowing_add`
abbrev carries : ℕ → ℕ → Bool
carries x y = leb (2 ^ 32) (x + y)

-- `if carry { self.regs.xer |= 0x20000000 } else { self.regs.xer &= !0x20000000 }`
abbrev set_carry : Bool → PpcRegs → PpcRegs
set_carry carry r = record r { xer = if carry then set_bit 29 r.xer else clear_bit 29 r.xer }

-- the bits of a result in CR0
abbrev sign_bits : ℕ → ℕ
sign_bits val = if val == 0 then 0b0010 else if leb 0x8000_0000 val then 0b1000 else 0b0100

-- `self.regs.cr = (self.regs.cr & 0x0FFF_FFFF) | (cr_bits << 28)`
abbrev set_cr0 : ℕ → PpcRegs → PpcRegs
set_cr0 val r = record r { cr = sign_bits val * 2 ^ 28 + r.cr % 2 ^ 28 }

-- `(cr & !(0xF << shift)) | (v << shift)`, with the shift of field `crf`
abbrev pub put_field : ℕ → ℕ → ℕ → ℕ
put_field crf v cr = put_bits (28 - crf * 4) 4 v cr

-- an effective address: a register plus a displacement of 16 bits
abbrev plus_si : ℕ → ℕ → ℕ
plus_si a insn = (a + sext16 insn) % 2 ^ 32

module _ ⦃bus : BusInterface⦄ where
  -- `&mut self` and `bus: &mut dyn BusInterface`
  abbrev pub Core : Type 0
  Core = Ppu × bus.State

  -- `Result<A, PpcError>`
  abbrev pub Ppc : Type 0 → Type 0
  Ppc A = Exec Core PpcError A

  abbrev pub with_regs : PpcRegs → Core → Core
  with_regs r s = (record s.0 { regs = r }, s.1)

  unfoldable pub get_regs : Ppc PpcRegs
  get_regs s = value (s, ok s.0.regs)

  unfoldable pub set_regs : (PpcRegs → PpcRegs) → Ppc Done
  set_regs f s = value (with_regs (f s.0.regs) s, ok tt)

  -- an instruction that changes the registers, and `Ok(1)`
  unfoldable pub on_regs : (PpcRegs → PpcRegs) → Ppc ℕ
  on_regs f s = value (with_regs (f s.0.regs) s, ok 1)

  -- `read.ok_or(PpcError::PageFault(ea))?`
  abbrev or_fault : ℕ → Option ℕ → Core → Run (Core × Exit PpcError ℕ)
  or_fault ea none s = value (s, fault (page_fault ea))
  or_fault ea (some v) s = value (s, ok v)

  unfoldable pub reading : (bus.State → ℕ → Option ℕ) → ℕ → ℕ → Ppc ℕ
  reading read ea addr s = or_fault ea (read s.1 addr) s

  -- `write.ok_or(PpcError::PageFault(ea))?`
  abbrev pub stored : ℕ → Core → Run (Option bus.State) → Run (Core × Exit PpcError Done)
  stored ea s (value none) = value (s, fault (page_fault ea))
  stored ea s (value (some b)) = value ((s.0, b), ok tt)
  stored ea s panic = panic
  stored ea s out_of_fuel = out_of_fuel

  unfoldable writing : (ℕ → ℕ → bus.State → Run (Option bus.State)) → ℕ → ℕ → ℕ → Ppc Done
  writing write ea addr val s = stored ea s (write addr val s.1)

-- `r` comes to the result 1, in a core as `P` says.
pub record Reaches ⦃bus : BusInterface⦄ (r : Run (Core × Exit PpcError ℕ)) (P : Core → Type 0)
    : Type 0 where
  pub after : Core
  pub done : r ≡ value (after, ok 1)
  pub holds : P after
