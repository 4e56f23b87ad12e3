-- ===== src/ColdFire/Stack.antt =====
-- src/cpu/coldfire.rs: the stack. What an interrupt, a call or LINK puts there, its return takes back,
-- in a bus with memory below `a[7]`.
use monte_lauro_ml_cd32_ppc.Base.{
  ℕ, ◌+◌, ◌*◌, ◌/◌, ◌%◌, ◌^◌, ◌<◌, ◌≤◌, false, some, ◌==◌, update, add32, sub32, sext8, u16, ◌≡◌,
  ◌≢◌, refl, ◌∙◌, ap, arith,
}
use Prim.Native.Nat.{bit_or}
use monte_lauro_ml_cd32_ppc.Base.Run.{value}
use monte_lauro_ml_cd32_ppc.Base.Exec.{ok, pure, ◌>>=◌, continue}
use monte_lauro_ml_cd32_ppc.Bus.Interface.{BusInterface}
use monte_lauro_ml_cd32_ppc.ColdFire.{
  Core, get_regs, set_regs, load_half, load_word, peek_half, peek_word, mode_of, reg_of, store_half,
  store_word,
}
use monte_lauro_ml_cd32_ppc.ColdFire.Flow.{
  push_word, pop_word, op_rte, take_interrupt, op_jsr, op_bsr, op_rts,
}
use monte_lauro_ml_cd32_ppc.ColdFire.Frames.{StackMemory, Reaches, SameRegs}

abbrev pub masked : ℕ → ℕ → ℕ
masked level sr = bit_or (sr / 2 ^ 11 * 2 ^ 11 + sr % 2 ^ 8) (u16 (level * 2 ^ 8))

module _ ⦃bus : BusInterface⦄ where
  -- the core in its interrupt, with two more words on the stack
  abbrev interrupted : ℕ → ℕ → Core → bus.State → Core
  interrupted level target s b =
      let top = sub32 (s.0.regs.a 7) 2 in
      let regs = record s.0.regs {
        a = update (update s.0.regs.a 7 top) 7 (sub32 top 4);
        pc = target;
        sr = masked level s.0.regs.sr;
      } in
      (record s.0 { regs = regs }, b)

  take_interrupt-interrupted :
      (level vector target : ℕ) (s : Core) (b1 b2 : bus.State)
      → bus.write_half (sub32 (s.0.regs.a 7) 2) s.0.regs.sr s.1 ≡ value (some b1)
      → bus.write_word (sub32 (sub32 (s.0.regs.a 7) 2) 4) s.0.regs.pc b1 ≡ value (some b2)
      → bus.read_word b2 (vector * 4) ≡ some target
      → take_interrupt level vector s ≡ value (interrupted level target s b2, ok 1)
  unfolding take_interrupt push_word get_regs set_regs store_half store_word load_word pure ◌>>=◌
      continue
  take_interrupt-interrupted level vector target s b1 b2 h1 h2 h3 = rw h1 (rw h2 (rw h3 refl))

  -- the core that RTE leaves
  abbrev returned : ℕ → ℕ → Core → Core
  returned pc sr s =
      let regs = record s.0.regs {
        a =
            update (update s.0.regs.a 7 (add32 (s.0.regs.a 7) 4)) 7
              (add32 (add32 (s.0.regs.a 7) 4) 2);
        pc = pc;
        sr = sr;
      } in
      (record s.0 { regs = regs }, s.1)

  op_rte-returned :
      (pc sr : ℕ) (s : Core)
      → bus.read_word s.1 (s.0.regs.a 7) ≡ some pc
      → bus.read_half s.1 (add32 (s.0.regs.a 7) 4) ≡ some sr
      → op_rte s ≡ value (returned pc sr s, ok 1)
  unfolding op_rte pop_word get_regs set_regs load_half load_word pure ◌>>=◌ continue
  op_rte-returned pc sr s h1 h2 = rw h1 (rw h2 refl)

  -- the core in a subroutine
  abbrev called : ℕ → Core → bus.State → Core
  called target s b =
      let regs = record s.0.regs {
        a = update s.0.regs.a 7 (sub32 (s.0.regs.a 7) 4);
        pc = target;
      } in
      (record s.0 { regs = regs }, b)

  op_jsr-called :
      (op : ℕ) (s : Core) (b : bus.State)
      → bus.read_half s.1 (sub32 s.0.regs.pc 2) ≡ some op
      → mode_of op ≡ 2
      → reg_of op ≢ 7
      → bus.write_word (sub32 (s.0.regs.a 7) 4) s.0.regs.pc s.1 ≡ value (some b)
      → op_jsr s ≡ value (called (s.0.regs.a (reg_of op)) s b, ok 1)
  unfolding op_jsr push_word get_regs set_regs peek_half store_word pure ◌>>=◌ continue
  op_jsr-called op s b h hm hr hw = rw h (rw hw (rw hm (rw (is_other (reg_of op) hr) refl)))
    where
      is_other : (i : ℕ) → i ≢ 7 → (i == 7) ≡ false
      is_other i h = ground arith

  op_bsr-called :
      (op : ℕ) (s : Core) (b : bus.State)
      → bus.read_half s.1 (sub32 s.0.regs.pc 2) ≡ some op
      → (op % 2 ^ 8 == 0) ≡ false
      → bus.write_word (sub32 (s.0.regs.a 7) 4) s.0.regs.pc s.1 ≡ value (some b)
      → op_bsr s ≡ value (called (add32 s.0.regs.pc (sext8 op)) s b, ok 1)
  unfolding op_bsr push_word get_regs set_regs peek_half peek_word store_word pure ◌>>=◌ continue
  op_bsr-called op s b h hs hw = rw h (rw hs (rw hw refl))

  op_rts-returned :
      (pc : ℕ) (s : Core)
      → bus.read_word s.1 (s.0.regs.a 7) ≡ some pc
      → op_rts s
        ≡ value (
          (
            record s.0 {
              regs = record s.0.regs { a = update s.0.regs.a 7 (add32 (s.0.regs.a 7) 4); pc = pc };
            },
            s.1,
          ),
          ok 1,
        )
  unfolding op_rts pop_word get_regs set_regs load_word pure ◌>>=◌ continue
  op_rts-returned pc s h = rw h refl

module _ ⦃bus : BusInterface⦄ (lo hi : ℕ) (stack : StackMemory bus lo hi) where
  -- An interrupt with room for 6 bytes on the stack jumps to its vector, with its level put into the
  -- status register, and RTE then gives back every register, the status register among them.
  pub take_interrupt-rte :
      (level vector target : ℕ) (s : Core)
      → lo + 6 ≤ s.0.regs.a 7
      → s.0.regs.a 7 ≤ hi
      → hi < 2 ^ 32
      → s.0.regs.sr < 2 ^ 16
      → s.0.regs.pc < 2 ^ 32
      → vector < 256
      → stack.Good s.1
      → bus.read_word s.1 (vector * 4) ≡ some target
      → Reaches (take_interrupt level vector s) (λ t.
        (t.0.regs.pc ≡ target)
        × (t.0.regs.sr ≡ masked level s.0.regs.sr)
        × Reaches (op_rte t) (SameRegs s))
  take_interrupt-rte level vector target s h1 h2 h3 hsr hpc hv good e =
      let top = sub32 (s.0.regs.a 7) 2 in
      let first = stack.write_half top s.0.regs.sr s.1 (omega arith) (omega arith) hsr good in
      let second =
        stack.write_word (sub32 top 4) s.0.regs.pc first.after (omega arith) (omega arith) hpc
          first.good in
      let there = interrupted level target s second.after in
      record {
        after = there;
        done =
            take_interrupt-interrupted level vector target s first.after second.after first.wrote
              second.wrote
              (second.vectors (vector * 4) (omega arith)
                ∙ first.vectors (vector * 4) (omega arith)
                ∙ e);
        holds = (
          refl,
          refl,
          record {
            after = returned s.0.regs.pc s.0.regs.sr there;
            done = op_rte-returned s.0.regs.pc s.0.regs.sr there second.word (
                second.above _ (omega arith) (omega arith)
                ∙ ap (bus.read_half first.after) (omega arith)
                ∙ first.half);
            holds = record { pc = refl; sr = refl; d = refl; a = λ i. ground arith };
          },
        );
      }

  -- the return from a subroutine, which has left the stack as it found it
  rts-called :
      (target : ℕ) (s : Core) (b : bus.State)
      → lo + 4 ≤ s.0.regs.a 7
      → s.0.regs.a 7 < 2 ^ 32
      → bus.read_word b (sub32 (s.0.regs.a 7) 4) ≡ some s.0.regs.pc
      → Reaches (op_rts (called target s b)) (SameRegs s)
  rts-called target s b h1 h2 h3 = record {
    after = _;
    done = op_rts-returned s.0.regs.pc (called target s b) h3;
    holds = record { pc = refl; sr = refl; d = refl; a = λ i. ground arith };
  }

  -- JSR (An), for another register than A7 and with room for 4 bytes on the stack, goes to the
  -- address in An, and RTS then gives back every register.
  pub op_jsr-rts :
      (op : ℕ) (s : Core)
      → lo + 4 ≤ s.0.regs.a 7
      → s.0.regs.a 7 ≤ hi
      → hi < 2 ^ 32
      → s.0.regs.pc < 2 ^ 32
      → stack.Good s.1
      → bus.read_half s.1 (sub32 s.0.regs.pc 2) ≡ some op
      → mode_of op ≡ 2
      → reg_of op ≢ 7
      → Reaches
          (op_jsr s)
          (λ t. (t.0.regs.pc ≡ s.0.regs.a (reg_of op)) × Reaches (op_rts t) (SameRegs s))
  op_jsr-rts op s h1 h2 h3 hpc good e hm hr =
      let w =
        stack.write_word (sub32 (s.0.regs.a 7) 4) s.0.regs.pc s.1 (omega arith) (omega arith) hpc
          good in
      let target = s.0.regs.a (reg_of op) in
      record {
        after = called target s w.after;
        done = op_jsr-called op s w.after e hm hr w.wrote;
        holds = (refl, rts-called target s w.after h1 (omega arith) w.word);
      }

  -- BSR with a displacement of 8 bits goes to the address that is as far from the next instruction,
  -- and RTS then gives back every register.
  op_bsr-rts :
      (op : ℕ) (s : Core)
      → lo + 4 ≤ s.0.regs.a 7
      → s.0.regs.a 7 ≤ hi
      → hi < 2 ^ 32
      → s.0.regs.pc < 2 ^ 32
      → stack.Good s.1
      → bus.read_half s.1 (sub32 s.0.regs.pc 2) ≡ some op
      → op % 2 ^ 8 ≢ 0
      → Reaches
          (op_bsr s)
          (λ t. (t.0.regs.pc ≡ add32 s.0.regs.pc (sext8 op)) × Reaches (op_rts t) (SameRegs s))
  op_bsr-rts op s h1 h2 h3 hpc good e hd =
      let w =
        stack.write_word (sub32 (s.0.regs.a 7) 4) s.0.regs.pc s.1 (omega arith) (omega arith) hpc
          good in
      let target = add32 s.0.regs.pc (sext8 op) in
      record {
        after = called target s w.after;
        done = op_bsr-called op s w.after e (ground arith) w.wrote;
        holds = (refl, rts-called target s w.after h1 (omega arith) w.word);
      }
