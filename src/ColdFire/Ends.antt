-- ===== src/ColdFire/Ends.antt =====
-- Every instruction comes to an end, if the writes of the bus do.
pub mod Moves
pub mod Flow
pub mod Arith
pub mod Logic
pub mod Dispatch
use monte_lauro_ml_cd32_ppc.Base.{
  ℕ, refl, Bool, true, false, Option, none, some, ◌≢◌, List, [], ◌∷◌, zero, suc, if◌then◌else◌,
}
use monte_lauro_ml_cd32_ppc.Base.Run.{Run, value, panic, out_of_fuel}
use monte_lauro_ml_cd32_ppc.Base.Exec.{Ends, ends_rules, Ends-if, Ends-pure, Ends-bind, pure, ◌>>=◌}
use monte_lauro_ml_cd32_ppc.Bus.Interface.{BusInterface, WritesEnd}
use monte_lauro_ml_cd32_ppc.ColdFire.{
  Cf, CfRegs, CfAddressing, get_regs, set_regs, set_halt, update_flags, load_byte, load_half,
  load_word, peek_half, peek_word, store_byte, store_half, store_word, stored, Core, op_ill,
  or_fault, data_register_direct, address_register_direct, address_register_indirect,
  address_register_postinc, address_register_predec, address_register_displacement, abs_short,
  abs_long, pc_displacement, immediate,
}
use monte_lauro_ml_cd32_ppc.ColdFire.Operands.{
  two_halves, extension, decode_special, decode_ea, load, store, ea_read, ea_write,
}

module _ ⦃bus : BusInterface⦄ where
  pub Ends-get_regs : Ends get_regs
  unfolding get_regs
  Ends-get_regs = record { at = λ s h. cc }

  pub Ends-set_regs : (f : CfRegs → CfRegs) → Ends (set_regs f)
  unfolding set_regs
  Ends-set_regs f = record { at = λ s h. cc }

  pub Ends-set_halt : (h : Bool) → Ends (set_halt h)
  unfolding set_halt
  Ends-set_halt h = record { at = λ s p. cc }

  pub Ends-update_flags :
      (val size : ℕ) (carry overflow : Bool) → Ends (update_flags val size carry overflow)
  unfolding update_flags
  Ends-update_flags val size carry overflow = Ends-set_regs _

  or_fault-ends : (addr : ℕ) (o : Option ℕ) (s : Core) → or_fault addr o s ≢ out_of_fuel
  or_fault-ends addr none s h = cc
  or_fault-ends addr (some v) s h = cc

  pub Ends-load_byte : (addr : ℕ) → Ends (load_byte addr)
  unfolding load_byte
  Ends-load_byte addr = record { at = λ s. or_fault-ends addr _ s }

  pub Ends-load_half : (addr : ℕ) → Ends (load_half addr)
  unfolding load_half
  Ends-load_half addr = record { at = λ s. or_fault-ends addr _ s }

  pub Ends-load_word : (addr : ℕ) → Ends (load_word addr)
  unfolding load_word
  Ends-load_word addr = record { at = λ s. or_fault-ends addr _ s }

  pub Ends-peek_half : (addr : ℕ) → Ends (peek_half addr)
  unfolding peek_half
  Ends-peek_half addr = record { at = λ s h. cc }

  pub Ends-peek_word : (addr : ℕ) → Ends (peek_word addr)
  unfolding peek_word
  Ends-peek_word addr = record { at = λ s h. cc }

  pub Ends-op_ill : (op : ℕ) → Ends (op_ill op)
  unfolding op_ill
  Ends-op_ill op = search (ends_rules, Ends-get_regs)

  pub ruleset reading_rules = (
    ends_rules, Ends-get_regs, Ends-set_regs, Ends-set_halt, Ends-update_flags, Ends-load_byte,
    Ends-load_half, Ends-load_word, Ends-peek_half, Ends-peek_word, Ends-op_ill,
  )

  Ends-two_halves : Ends two_halves
  unfolding two_halves
  Ends-two_halves = search reading_rules

  Ends-extension : Ends extension
  unfolding extension
  Ends-extension = search reading_rules

  Ends-decode_special : (reg : ℕ) → Ends (decode_special reg)
  unfolding decode_special
  Ends-decode_special reg =
      search (reading_rules, Ends-two_halves, Ends-extension) depth 30 fits 5000

  pub Ends-decode_ea : (mode reg size : ℕ) → Ends (decode_ea mode reg size)
  unfolding decode_ea
  Ends-decode_ea mode reg size =
      search (reading_rules, Ends-decode_special, Ends-extension) depth 30 fits 5000

  module _ (writes : WritesEnd bus) where
    stored-ends :
        (addr : ℕ) (s : Core) (r : Run (Option bus.State))
        → r ≢ out_of_fuel
        → stored addr s r ≢ out_of_fuel
    stored-ends addr s (value none) h = λ p. cc
    stored-ends addr s (value (some b)) h = λ p. cc
    stored-ends addr s panic h = λ p. cc
    stored-ends addr s out_of_fuel h = absurd (h refl)

    pub Ends-store_byte : (addr val : ℕ) → Ends (store_byte addr val)
    unfolding store_byte
    Ends-store_byte addr val = record { at = λ s. stored-ends addr s _ (writes.byte addr val s.1) }

    pub Ends-store_half : (addr val : ℕ) → Ends (store_half addr val)
    unfolding store_half
    Ends-store_half addr val = record { at = λ s. stored-ends addr s _ (writes.half addr val s.1) }

    pub Ends-store_word : (addr val : ℕ) → Ends (store_word addr val)
    unfolding store_word
    Ends-store_word addr val = record { at = λ s. stored-ends addr s _ (writes.word addr val s.1) }

    pub Ends-load : (size addr : ℕ) → Ends (load size addr)
    unfolding load
    Ends-load size addr = search reading_rules

    Ends-store : (size addr val : ℕ) → Ends (store size addr val)
    unfolding store
    Ends-store size addr val =
        search (reading_rules, Ends-store_byte, Ends-store_half, Ends-store_word)

    pub Ends-ea_read : (ea : CfAddressing) (size : ℕ) → Ends (ea_read ea size)
    unfolding ea_read
    Ends-ea_read (data_register_direct val idx) size = search reading_rules
    Ends-ea_read (immediate val) size = search reading_rules
    Ends-ea_read (address_register_direct val idx) size = search reading_rules
    Ends-ea_read _ size = Ends-load size _

    pub Ends-ea_write : (ea : CfAddressing) (val size : ℕ) → Ends (ea_write ea val size)
    unfolding ea_write
    Ends-ea_write (data_register_direct v idx) val size = search reading_rules
    Ends-ea_write (immediate v) val size = search reading_rules
    Ends-ea_write (address_register_direct v idx) val size = search reading_rules
    Ends-ea_write _ val size = Ends-store size _ val

    pub ruleset operand_rules = (
      reading_rules, Ends-decode_ea, Ends-ea_read, Ends-ea_write, Ends-store_byte, Ends-store_half,
      Ends-store_word,
    )
