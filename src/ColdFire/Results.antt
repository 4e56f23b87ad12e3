-- ===== src/ColdFire/Results.antt =====
-- src/cpu/coldfire.rs: what DIVU leaves, which divisors make it panic, how ASR shifts, and where an
-- operand with a displacement is read.
use monte_lauro_ml_cd32_ppc.Base.{
  ℕ, ◌+◌, ◌*◌, ◌/◌, ◌%◌, ◌^◌, ◌<◌, true, false, some, if◌then◌else◌, ◌==◌, add32, u16, update,
  test_bit, ◌≡◌, ◌≢◌, refl, ◌∙◌, ap, arith,
}
use native.Mathlib.Nat.{mod-lt, mod-add-div'}
use monte_lauro_ml_cd32_ppc.Base.Run.{value, panic}
use monte_lauro_ml_cd32_ppc.Base.Exec.{ok, pure, crash, ◌>>=◌, continue}
use monte_lauro_ml_cd32_ppc.Bus.Interface.{BusInterface}
use monte_lauro_ml_cd32_ppc.ColdFire.{Core, get_regs, set_regs, mode_of, reg_of, dn_of, load_word}
use monte_lauro_ml_cd32_ppc.ColdFire.Operands.{decode_ea, ea_read, ea_write, extension, load, store}
use monte_lauro_ml_cd32_ppc.ColdFire.Division.{op_div, divided}
use monte_lauro_ml_cd32_ppc.ColdFire.Logic.{shift, shift_instr, op_asr, op_lsr}
use monte_lauro_ml_cd32_ppc.ColdFire.Frames.{Reaches}

is_other : (x k : ℕ) → x ≢ k → (x == k) ≡ false
is_other x k h = ground arith

shift_same : (count val : ℕ) → count < 32 → shift true false count val ≡ shift false true count val
unfolding shift
shift_same count val h = ground arith

update_same : (f : ℕ → ℕ) (i v : ℕ) → update f i v i ≡ v
update_same f i v = ground arith

-- the two halves of a remainder above a quotient
divided_parts :
    (n d x : ℕ)
    → d ≢ 0
    → d < 2 ^ 16
    → n / d < 2 ^ 16
    → x ≡ u16 (n % d) * 2 ^ 16 + u16 (n / d)
    → (x % 2 ^ 16 * d + x / 2 ^ 16 ≡ n) × (x / 2 ^ 16 < d)
divided_parts n d x h0 h hq e =
    let hr = mod-lt n {m = d} (omega arith) in
    let (q, r) = halves_of x (n % d) (n / d) (omega arith) hq e in
    (rw q (rw r (omega (arith, mod-add-div' n d))), rw r hr)
  where
    halves_of :
        (x r q : ℕ)
        → r < 2 ^ 16
        → q < 2 ^ 16
        → x ≡ u16 r * 2 ^ 16 + u16 q
        → (x % 2 ^ 16 ≡ q) × (x / 2 ^ 16 ≡ r)
    halves_of x r q hr hq e = (omega arith, omega arith)

module _ ⦃bus : BusInterface⦄ where
  abbrev with_d : ℕ → ℕ → Core → Core
  with_d i v s = (record s.0 { regs = record s.0.regs { d = update s.0.regs.d i v } }, s.1)

  abbrev past_extension : Core → Core
  past_extension s = (record s.0 { regs = record s.0.regs { pc = add32 s.0.regs.pc 2 } }, s.1)

  divide_registers :
      (op : ℕ) (s : Core)
      → mode_of op ≡ 0
      → test_bit 8 op ≡ false
      → s.0.regs.d (reg_of op) % 2 ^ 16 ≢ 0
      → op_div op s
        ≡ value (
          with_d
              (dn_of op)
              (divided false (s.0.regs.d (dn_of op)) (u16 (s.0.regs.d (reg_of op))))
              s,
          ok 1,
        )
  unfolding op_div get_regs set_regs pure ◌>>=◌ continue
  divide_registers op s hm ht hd = rw hm (
      rw ht (
        rw (is_other (u16 (u16 (s.0.regs.d (reg_of op)))) 0 (omega arith))
          (rw (is_other (u16 (s.0.regs.d (reg_of op))) 0 hd) refl)))

  -- DIVU of a data register by the low half of another, other than 0, with a quotient that fits in
  -- 16 bits: it is in the low half of the result, and the remainder, below the divisor, in the high
  -- half.
  pub op_div-unsigned :
      (op : ℕ) (s : Core)
      → mode_of op ≡ 0
      → test_bit 8 op ≡ false
      → s.0.regs.d (reg_of op) % 2 ^ 16 ≢ 0
      → s.0.regs.d (dn_of op) / (s.0.regs.d (reg_of op) % 2 ^ 16) < 2 ^ 16
      → Reaches (op_div op s) (λ t.
        let x = t.0.regs.d (dn_of op) in
        let divisor = s.0.regs.d (reg_of op) % 2 ^ 16 in
        (x % 2 ^ 16 * divisor + x / 2 ^ 16 ≡ s.0.regs.d (dn_of op)) × (x / 2 ^ 16 < divisor))
  unfolding divided
  op_div-unsigned op s hm ht hd hq = record {
    after = _;
    done = divide_registers op s hm ht hd;
    holds =
        divided_parts (s.0.regs.d (dn_of op)) (s.0.regs.d (reg_of op) % 2 ^ 16) _ hd (omega arith)
          hq
          (update_same s.0.regs.d (dn_of op) _
            ∙ ap (λ d. u16 (s.0.regs.d (dn_of op) % d) * 2 ^ 16 + u16 (s.0.regs.d (dn_of op) / d))
                (omega arith));
  }

  -- A divisor in an address register, other than 0, whose low half is 0, makes a division panic.
  op_div-panics :
      (op : ℕ) (s : Core)
      → mode_of op ≡ 1
      → s.0.regs.a (reg_of op) ≢ 0
      → s.0.regs.a (reg_of op) % 2 ^ 16 ≡ 0
      → op_div op s ≡ panic
  unfolding op_div decode_ea ea_read get_regs pure crash ◌>>=◌ continue
  op_div-panics op s hm h0 hl = rw hm (rw (is_other _ 0 h0) (rw hl refl))

  -- For a shift count below 32, ASR does what LSR does.
  op_asr-op_lsr :
      (op : ℕ) (s : Core)
      → (if test_bit 5 op then s.0.regs.d (dn_of op) % 64 else dn_of op) < 32
      → op_asr op s ≡ op_lsr op s
  unfolding op_asr op_lsr shift_instr get_regs ◌>>=◌ continue
  op_asr-op_lsr op s h =
      rw
        (shift_same (if test_bit 5 op then s.0.regs.d (dn_of op) % 64 else dn_of op)
          (s.0.regs.d (reg_of op)) h)
        refl

  -- An operand with a displacement is read, and written, at the address in its register, whatever the
  -- extension word is.
  displacement-unused :
      (reg size val ext : ℕ) (s : Core)
      → bus.read_word s.1 s.0.regs.pc ≡ some ext
      → let next = past_extension s in
        ((decode_ea 5 reg size >>= λ ea. ea_read ea size) s ≡ load size (s.0.regs.a reg) next)
        × ((decode_ea 5 reg size >>= λ ea. ea_write ea val size) s
            ≡ store size (s.0.regs.a reg) val next)
  unfolding decode_ea ea_read ea_write extension get_regs set_regs load_word pure ◌>>=◌ continue
  displacement-unused reg size val ext s h = (rw h refl, rw h refl)
