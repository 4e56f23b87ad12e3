-- ===== src/ColdFire.antt =====
-- src/cpu/coldfire.rs: the ColdFire core. This file has its registers, its flags, and the ways in
-- which an instruction reads and writes them and the bus.
pub mod Operands
pub mod Moves
pub mod Flow
pub mod Arith
pub mod Division
pub mod Logic
pub mod Dispatch
pub mod Ends
pub mod Conditions
pub mod Frames
pub mod Stack
pub mod Masking
pub mod Reached
pub mod Results
mod Tests
use monte_lauro_ml_cd32_ppc.Base.{
  ℕ, ◌+◌, ◌-◌, ◌*◌, ◌/◌, ◌%◌, ◌^◌, Bool, true, false, ◌&&◌, ◌||◌, Option, none, some, if◌then◌else◌,
  ltb, leb, ◌==◌, update, bits, sub32,
}
use monte_lauro_ml_cd32_ppc.Base.Run.{Run, value, panic, out_of_fuel}
use monte_lauro_ml_cd32_ppc.Base.Exec.{Exit, ok, fault, Exec, Done, raise, ◌>>=◌}
use monte_lauro_ml_cd32_ppc.Bus.Interface.{BusInterface}

pub data CfError : Type 0 where
  illegal_instruction : ℕ → ℕ → CfError
  access_fault : ℕ → CfError

-- A displacement is the pattern of its 16 bits.
data CfAddressing : Type 0 where
  data_register_direct : (val idx : ℕ) → CfAddressing
  address_register_direct : (val idx : ℕ) → CfAddressing
  address_register_indirect : ℕ → CfAddressing
  address_register_postinc : ℕ → CfAddressing
  address_register_predec : ℕ → CfAddressing
  address_register_displacement : (addr disp : ℕ) → CfAddressing
  abs_short : ℕ → CfAddressing
  abs_long : ℕ → CfAddressing
  pc_displacement : (addr disp : ℕ) → CfAddressing
  immediate : ℕ → CfAddressing

pub record CfRegs : Type 0 where
  pub d : ℕ → ℕ
  pub a : ℕ → ℕ
  pub pc : ℕ
  pub sr : ℕ

pub record ColdFire : Type 0 where
  pub regs : CfRegs
  pub halt : Bool
  pub trace : Bool

unfoldable usp : CfRegs → ℕ
usp r = r.a 7

unfoldable set_usp : ℕ → CfRegs → CfRegs
set_usp val r = record r { a = update r.a 7 val }

unfoldable ssp : CfRegs → ℕ
ssp r = r.a 6

unfoldable set_ssp : ℕ → CfRegs → CfRegs
set_ssp val r = record r { a = update r.a 6 val }

unfoldable pub reset : ColdFire → ColdFire
reset c = record {
  regs = record { d = λ i. 0; a = λ i. 0; pc = 0xFF00_0000; sr = 0x2700 };
  halt = false;
  trace = false;
}

unfoldable pub new : ColdFire
unfolding reset
new = reset (record {
  regs = record { d = λ i. 0; a = λ i. 0; pc = 0; sr = 0 };
  halt = false;
  trace = false;
})

-- `match size { 1 => .., 2 => .., _ => .. }`
abbrev by_size {ℓ} : {A : Type ℓ} → ℕ → A → A → A → A
by_size size b w l = if size == 1 then b else if size == 2 then w else l

-- `val & mask`, with the mask of a size
abbrev pub low : ℕ → ℕ → ℕ
low size val = by_size size (val % 2 ^ 8) (val % 2 ^ 16) (val % 2 ^ 32)

-- `(dst & !mask) | (val & mask)`
abbrev put_low : ℕ → ℕ → ℕ → ℕ
put_low size val dst =
    by_size size (dst / 2 ^ 8 * 2 ^ 8 + val % 2 ^ 8) (dst / 2 ^ 16 * 2 ^ 16 + val % 2 ^ 16)
      (val % 2 ^ 32)

-- `!x` on `u32`
abbrev not32 : ℕ → ℕ
not32 x = 2 ^ 32 - 1 - x

-- `(x as i32) < 0`
abbrev is_negative : ℕ → Bool
is_negative x = leb 0x8000_0000 x

-- The status register after `update_flags`.
unfoldable pub flags : ℕ → ℕ → Bool → Bool → ℕ → ℕ
flags val size carry overflow sr =
    let v = low size val in
    sr / 16 * 16
    + (if v == 0 then 4 else 0)
    + (if is_negative v then 8 else 0)
    + (if carry then 1 else 0)
    + (if overflow then 2 else 0)

unfoldable get_cc_cond : ℕ → ℕ → Bool
get_cc_cond cond sr =
    let c = bits 0 1 sr in
    let v = bits 1 1 sr in
    let z = bits 2 1 sr in
    let n = bits 3 1 sr in
    if cond == 0x0
    then true
    else if cond == 0x1
    then false
    else if cond == 0x2
    then c == 0 && z == 0
    else if cond == 0x3
    then c == 1 || z == 1
    else if cond == 0x4
    then c == 0
    else if cond == 0x5
    then c == 1
    else if cond == 0x6
    then z == 0
    else if cond == 0x7
    then z == 1
    else if cond == 0x8
    then v == 0
    else if cond == 0x9
    then v == 1
    else if cond == 0xA
    then n == 0
    else if cond == 0xB
    then n == 1
    else if cond == 0xC
    then n == v
    else if cond == 0xD
    then (n + v) % 2 == 1
    else if cond == 0xE
    then z == 0 && n == v
    else if cond == 0xF
    then z == 1 || (n + v) % 2 == 1
    else false

module _ ⦃bus : BusInterface⦄ where
  -- `&mut self` and `bus: &mut dyn BusInterface`
  abbrev pub Core : Type 0
  Core = ColdFire × bus.State

  -- `Result<A, CfError>`
  abbrev Cf : Type 0 → Type 0
  Cf A = Exec Core CfError A

  unfoldable get_regs : Cf CfRegs
  get_regs s = value (s, ok s.0.regs)

  unfoldable set_regs : (CfRegs → CfRegs) → Cf Done
  set_regs f s = value ((record s.0 { regs = f s.0.regs }, s.1), ok tt)

  -- `self.regs.pc = v` and the like
  abbrev set_pc : ℕ → Cf Done
  set_pc v = set_regs (λ r. record r { pc = v })

  abbrev set_sr : ℕ → Cf Done
  set_sr v = set_regs (λ r. record r { sr = v })

  abbrev set_d : ℕ → ℕ → Cf Done
  set_d i v = set_regs (λ r. record r { d = update r.d i v })

  abbrev set_a : ℕ → ℕ → Cf Done
  set_a i v = set_regs (λ r. record r { a = update r.a i v })

  unfoldable set_halt : Bool → Cf Done
  set_halt h s = value ((record s.0 { halt = h }, s.1), ok tt)

  unfoldable update_flags : ℕ → ℕ → Bool → Bool → Cf Done
  unfolding flags set_regs
  update_flags val size carry overflow =
      set_regs (λ r. record r { sr = flags val size carry overflow r.sr })

  -- `read.ok_or(CfError::AccessFault(addr))?`
  abbrev or_fault : ℕ → Option ℕ → Core → Run (Core × Exit CfError ℕ)
  or_fault addr none s = value (s, fault (access_fault addr))
  or_fault addr (some v) s = value (s, ok v)

  unfoldable load_byte : ℕ → Cf ℕ
  load_byte addr s = or_fault addr (bus.read_byte s.1 addr) s

  unfoldable load_half : ℕ → Cf ℕ
  load_half addr s = or_fault addr (bus.read_half s.1 addr) s

  unfoldable load_word : ℕ → Cf ℕ
  load_word addr s = or_fault addr (bus.read_word s.1 addr) s

  -- `read.unwrap_or(0)`
  abbrev pub or_zero : Option ℕ → ℕ
  or_zero none = 0
  or_zero (some v) = v

  unfoldable peek_half : ℕ → Cf ℕ
  peek_half addr s = value (s, ok (or_zero (bus.read_half s.1 addr)))

  unfoldable peek_word : ℕ → Cf ℕ
  peek_word addr s = value (s, ok (or_zero (bus.read_word s.1 addr)))

  -- `write.ok_or(CfError::AccessFault(addr))?`
  abbrev pub stored : ℕ → Core → Run (Option bus.State) → Run (Core × Exit CfError Done)
  stored addr s (value none) = value (s, fault (access_fault addr))
  stored addr s (value (some b)) = value ((s.0, b), ok tt)
  stored addr s panic = panic
  stored addr s out_of_fuel = out_of_fuel

  unfoldable store_byte : ℕ → ℕ → Cf Done
  store_byte addr val s = stored addr s (bus.write_byte addr val s.1)

  unfoldable store_half : ℕ → ℕ → Cf Done
  store_half addr val s = stored addr s (bus.write_half addr val s.1)

  unfoldable store_word : ℕ → ℕ → Cf Done
  store_word addr val s = stored addr s (bus.write_word addr val s.1)

  unfoldable op_ill : ℕ → Cf ℕ
  unfolding get_regs
  op_ill op = get_regs >>= λ r. raise (illegal_instruction op (sub32 r.pc 2))

-- the fields of an instruction word: bits 3 to 5, bits 0 to 2, and bits 9 to 11
abbrev mode_of : ℕ → ℕ
mode_of op = bits 3 3 op

abbrev reg_of : ℕ → ℕ
reg_of op = bits 0 3 op

abbrev dn_of : ℕ → ℕ
dn_of op = bits 9 3 op
