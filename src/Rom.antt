-- ===== src/Rom.antt =====
-- src/bin/gen_rom.rs: the generator of boot ROMs. This file has the encoders of PowerPC instructions.
-- Registers are below 32, so that the fields do not overlap and `|` is a sum; a displacement is the
-- pattern of its 16 bits.
mod Tests
pub mod Image
pub mod Programs
pub mod Targets
pub mod Layout
pub mod Agreement
pub mod Boot
use monte_lauro_ml_cd32_ppc.Base.{ℕ, ◌+◌, ◌-◌, ◌*◌, ◌/◌, ◌%◌, ◌^◌, bits, sub32}

-- a D-form: an opcode, two registers and 16 bits
abbrev dform : (op rd ra imm : ℕ) → ℕ
dform op rd ra imm = op * 2 ^ 26 + rd * 2 ^ 21 + ra * 2 ^ 16 + imm % 2 ^ 16

unfoldable i_addi : (rd ra si : ℕ) → ℕ
i_addi rd ra si = dform 14 rd ra si

unfoldable i_addis : (rd ra si : ℕ) → ℕ
i_addis rd ra si = dform 15 rd ra si

unfoldable i_ori : (rd ra ui : ℕ) → ℕ
i_ori rd ra ui = dform 24 rd ra ui

unfoldable i_oris : (rd ra ui : ℕ) → ℕ
i_oris rd ra ui = dform 25 rd ra ui

unfoldable i_stw : (rs d ra : ℕ) → ℕ
i_stw rs d ra = dform 36 rs ra d

unfoldable i_lwz : (rd d ra : ℕ) → ℕ
i_lwz rd d ra = dform 32 rd ra d

unfoldable i_cmpi : (ra si : ℕ) → ℕ
i_cmpi ra si = dform 11 0 ra si

unfoldable i_bc : (bo bi bd : ℕ) → ℕ
i_bc bo bi bd = 16 * 2 ^ 26 + bo * 2 ^ 21 + bi * 2 ^ 16 + bits 0 14 bd * 2 ^ 2

-- a branch at `cur` to `target`
unfoldable i_b : (target cur : ℕ) → ℕ
i_b target cur = 18 * 2 ^ 26 + bits 0 24 (sub32 target cur / 4) * 2 ^ 2

unfoldable i_mtspr : (spr rs : ℕ) → ℕ
i_mtspr spr rs = 31 * 2 ^ 26 + rs * 2 ^ 21 + bits 5 5 spr * 2 ^ 16 + bits 0 5 spr * 2 ^ 11 + 467 * 2

unfoldable i_mtmsr : ℕ → ℕ
i_mtmsr rs = 31 * 2 ^ 26 + rs * 2 ^ 21 + 178 * 2

unfoldable i_mfmsr : ℕ → ℕ
i_mfmsr rd = 31 * 2 ^ 26 + rd * 2 ^ 21 + 83 * 2

unfoldable i_rfi : ℕ
i_rfi = 19 * 2 ^ 26 + 50 * 2

unfoldable i_mtcrf : (mask rs : ℕ) → ℕ
i_mtcrf mask rs = 31 * 2 ^ 26 + rs * 2 ^ 21 + mask * 2 ^ 12 + 144 * 2

unfoldable i_mfcr : ℕ → ℕ
i_mfcr rd = 31 * 2 ^ 26 + rd * 2 ^ 21 + 19 * 2
