-- ===== src/ColdFire/Masking.antt =====
-- src/cpu/coldfire.rs, `step`: which interrupts are taken, and what one that is taken masks.
use monte_lauro_ml_cd32_ppc.Base.{
  ℕ, ◌+◌, ◌*◌, ◌/◌, ◌%◌, ◌^◌, ◌<◌, ◌≤◌, false, none, some, bits, u16, ◌≡◌, refl, subst, sym, ◌∙◌,
  ap, arith,
}
use Prim.Native.Nat.{bit_or, max}
use monte_lauro_ml_cd32_ppc.Base.Digits.{halves, digit_of_bit_or}
use monte_lauro_ml_cd32_ppc.Bus.Interface.{BusInterface}
use monte_lauro_ml_cd32_ppc.ColdFire.{Core, CfRegs}
use monte_lauro_ml_cd32_ppc.ColdFire.Flow.{take_interrupt}
use monte_lauro_ml_cd32_ppc.ColdFire.Dispatch.{step, accepted, fetch}
use monte_lauro_ml_cd32_ppc.ColdFire.Stack.{masked, take_interrupt-rte}
use monte_lauro_ml_cd32_ppc.ColdFire.Frames.{StackMemory, Reaches}

max-zero : (y : ℕ) → max 0 y ≡ y
max-zero y = ground arith

-- where the first number has a digit 0
digit_from_second : (k a b : ℕ) → halves k a % 2 ≡ 0 → halves k (bit_or a b) % 2 ≡ halves k b % 2
digit_from_second k a b h = digit_of_bit_or k a b ∙ ap (λ x. max x (halves k b % 2)) h ∙ max-zero _

digits_of_level :
    (x y level : ℕ)
    → level < 8
    → y ≡ level * 2 ^ 8
    → halves 8 x % 2 ≡ halves 8 y % 2
    → halves 9 x % 2 ≡ halves 9 y % 2
    → halves 10 x % 2 ≡ halves 10 y % 2
    → bits 8 3 x ≡ level
digits_of_level x y level h e e8 e9 e10 = omega arith

mask-masked : (level sr : ℕ) → level < 8 → bits 8 3 (masked level sr) ≡ level
mask-masked level sr h =
    let kept = sr / 2 ^ 11 * 2 ^ 11 + sr % 2 ^ 8 in
    digits_of_level (masked level sr) (u16 (level * 2 ^ 8)) level h (omega arith)
      (digit_from_second 8 kept (u16 (level * 2 ^ 8)) (omega arith))
      (digit_from_second 9 kept (u16 (level * 2 ^ 8)) (omega arith))
      (digit_from_second 10 kept (u16 (level * 2 ^ 8)) (omega arith))

module _ ⦃bus : BusInterface⦄ where
  not_above : (r : CfRegs) (l v : ℕ) → l ≤ bits 8 3 r.sr → accepted r (some (l, v)) ≡ none
  not_above r l v h = ground arith

  is_above : (r : CfRegs) (l v : ℕ) → bits 8 3 r.sr < l → accepted r (some (l, v)) ≡ some (l, v)
  is_above r l v h = ground arith

  -- A pending interrupt whose level is not above the mask is not taken: a step executes the
  -- instruction at the program counter, as it does with no interrupt pending.
  step-masked :
      (level vector : ℕ) (s : Core)
      → s.0.halt ≡ false
      → bus.cf_irq_pending s.1 ≡ some (level, vector)
      → level ≤ bits 8 3 s.0.regs.sr
      → step s ≡ fetch s
  unfolding step
  step-masked level vector s h e k = rw h (rw e (rw (not_above s.0.regs level vector k) refl))

  step-taken :
      (level vector : ℕ) (s : Core)
      → s.0.halt ≡ false
      → bus.cf_irq_pending s.1 ≡ some (level, vector)
      → bits 8 3 s.0.regs.sr < level
      → step s ≡ take_interrupt level vector s
  unfolding step
  step-taken level vector s h e k = rw h (rw e (rw (is_above s.0.regs level vector k) refl))

  module _ (lo hi : ℕ) (stack : StackMemory bus lo hi) where
    -- An interrupt above the mask, of a level up to 7 and with a handler's address that can be read at its
    -- vector, is taken before the next instruction of a processor that is not halted and whose stack
    -- has room for 6 bytes, in memory that keeps what is written. In every state after that, of the
    -- processor and the bus, with the status register that it leaves, none of its level or below is
    -- accepted: unless the processor is halted, a step executes the instruction instead.
    pub step-serves :
        (level vector target : ℕ) (s : Core)
        → lo + 6 ≤ s.0.regs.a 7
        → s.0.regs.a 7 ≤ hi
        → hi < 2 ^ 32
        → s.0.regs.sr < 2 ^ 16
        → s.0.regs.pc < 2 ^ 32
        → vector < 256
        → stack.Good s.1
        → bus.read_word s.1 (vector * 4) ≡ some target
        → s.0.halt ≡ false
        → bus.cf_irq_pending s.1 ≡ some (level, vector)
        → bits 8 3 s.0.regs.sr < level
        → level < 8
        → Reaches (step s) (λ t.
          (t.0.regs.pc ≡ target)
          × ((u : Core) (l v : ℕ)
              → u.0.regs.sr ≡ t.0.regs.sr
              → l ≤ level
              → (accepted u.0.regs (some (l, v)) ≡ none)
                × (u.0.halt ≡ false → bus.cf_irq_pending u.1 ≡ some (l, v) → step u ≡ fetch u)))
    step-serves level vector target s h1 h2 h3 hsr hpc hv good e h p above hl =
        let taken =
          take_interrupt-rte lo hi stack level vector target s h1 h2 h3 hsr hpc hv good e in
        let (to_vector, sr, back) = taken.holds in
        record {
          after = taken.after;
          done = step-taken level vector s h p above ∙ taken.done;
          holds = (
            to_vector,
            λ u l v same k.
                let below : l ≤ bits 8 3 u.0.regs.sr =
                  subst (λ x. l ≤ x)
                    (sym (ap (λ x. bits 8 3 x) (same ∙ sr) ∙ mask-masked level s.0.regs.sr hl)) k in
                (not_above u.0.regs l v below, λ awake due. step-masked l v u awake due below),
          );
        }
