-- ===== src/ColdFire/Frames.antt =====
-- src/cpu/coldfire.rs: what the stack of the ColdFire needs of the memory behind the bus, and how a
-- core is compared with another.
use monte_lauro_ml_cd32_ppc.Base.{ℕ, ◌+◌, ◌^◌, ◌<◌, ◌≤◌, some, ◌≡◌}
use monte_lauro_ml_cd32_ppc.Base.Run.{Run, value}
use monte_lauro_ml_cd32_ppc.Base.Exec.{Exit, ok}
use monte_lauro_ml_cd32_ppc.Bus.Interface.{BusInterface}
use monte_lauro_ml_cd32_ppc.ColdFire.{Core, CfError}
use monte_lauro_ml_cd32_ppc.ColdFire.Flow.{}

-- What a write of a half, or of a word, at `a` does: the value is read back, the vectors stay, and so
-- does the half above a word.
pub record HalfWritten (bus : BusInterface) (Good : bus.State → Type 0) (a v : ℕ) (b : bus.State)
    : Type 0 where
  pub after : bus.State
  pub wrote : bus.write_half a v b ≡ value (some after)
  pub good : Good after
  pub half : bus.read_half after a ≡ some v
  pub vectors : (x : ℕ) → x + 4 ≤ 0x400 → bus.read_word after x ≡ bus.read_word b x

pub record WordWritten (bus : BusInterface) (Good : bus.State → Type 0) (hi a v : ℕ) (b : bus.State)
    : Type 0 where
  pub after : bus.State
  pub wrote : bus.write_word a v b ≡ value (some after)
  pub good : Good after
  pub word : bus.read_word after a ≡ some v
  pub above : (x : ℕ) → x ≡ a + 4 → x + 2 ≤ hi → bus.read_half after x ≡ bus.read_half b x
  pub vectors : (x : ℕ) → x + 4 ≤ 0x400 → bus.read_word after x ≡ bus.read_word b x

-- Memory for a stack, from `lo` up to `hi`.
pub record StackMemory (bus : BusInterface) (lo hi : ℕ) : Type 1 where
  pub Good : bus.State → Type 0
  pub write_half :
      (a v : ℕ) (b : bus.State)
      → lo ≤ a
      → a + 2 ≤ hi
      → v < 2 ^ 16
      → Good b
      → HalfWritten bus Good a v b
  pub write_word :
      (a v : ℕ) (b : bus.State)
      → lo ≤ a
      → a + 4 ≤ hi
      → v < 2 ^ 32
      → Good b
      → WordWritten bus Good hi a v b

-- `r` comes to the result 1, in a core as `P` says.
pub record Reaches ⦃bus : BusInterface⦄ (r : Run (Core × Exit CfError ℕ)) (P : Core → Type 0)
    : Type 0 where
  pub after : Core
  pub done : r ≡ value (after, ok 1)
  pub holds : P after

-- The two cores have the same registers.
pub record SameRegs ⦃bus : BusInterface⦄ (s t : Core) : Type 0 where
  pub pc : t.0.regs.pc ≡ s.0.regs.pc
  pub sr : t.0.regs.sr ≡ s.0.regs.sr
  pub d : t.0.regs.d ≡ s.0.regs.d
  pub a : (i : ℕ) → t.0.regs.a i ≡ s.0.regs.a i
