-- ===== src/Rom/Agreement.antt =====
-- src/bin/gen_rom.rs and src/cpu/ppc603e.rs: what the instructions that the generator writes do when they
-- are executed.
use monte_lauro_ml_cd32_ppc.Base.{
  ℕ, ◌+◌, ◌-◌, ◌*◌, ◌/◌, ◌%◌, ◌^◌, ◌≤◌, ◌<◌, false, bits, u16, u32, sext16, add32, sub32, test_bit,
  update, ◌≡◌, ◌≢◌, refl, ◌∙◌, ap, arith, ◌⊎◌,
}
use Prim.Native.Nat.{bit_or}
use monte_lauro_ml_cd32_ppc.Base.Digits.{bit_or-low}
use monte_lauro_ml_cd32_ppc.Base.Run.{value}
use monte_lauro_ml_cd32_ppc.Base.Exec.{ok, ◌>>=◌, continue}
use monte_lauro_ml_cd32_ppc.Base.Arms.{select}
use monte_lauro_ml_cd32_ppc.Bus.Interface.{BusInterface}
use monte_lauro_ml_cd32_ppc.Ppc.{Core, PpcRegs, Reaches, on_regs, with_regs, rd_of, ra_of, set_gpr}
use monte_lauro_ml_cd32_ppc.Ppc.Arith.{op_addis}
use monte_lauro_ml_cd32_ppc.Ppc.Logic.{op_ori}
use monte_lauro_ml_cd32_ppc.Ppc.Special.{op_mtspr, write_spr, sprn_of}
use monte_lauro_ml_cd32_ppc.Ppc.Branch.{op_b, li_of}
use monte_lauro_ml_cd32_ppc.Ppc.Dispatch.{dispatch, arms, op_ill, op_xform, x_arms}
use monte_lauro_ml_cd32_ppc.Rom.{i_addis, i_ori, i_b, i_mtspr}

addis_fields :
    (r hi : ℕ)
    → r < 32
    → hi < 2 ^ 16
    → let insn = i_addis r 0 hi in
      (bits 26 6 insn ≡ 15)
      × (rd_of insn ≡ r)
      × (ra_of insn ≡ 0)
      × (u32 (sext16 insn * 2 ^ 16) ≡ hi * 2 ^ 16)
unfolding i_addis
addis_fields r hi h k = (omega arith, omega arith, omega arith, ground arith)

ori_fields :
    (r lo : ℕ)
    → r < 32
    → lo < 2 ^ 16
    → let insn = i_ori r r lo in
      (bits 26 6 insn ≡ 24) × (rd_of insn ≡ r) × (ra_of insn ≡ r) × (u16 insn ≡ lo)
unfolding i_ori
ori_fields r lo h k = (omega arith, omega arith, omega arith, omega arith)

-- the bits of a branch, and how far it goes
b_fields :
    (d : ℕ)
    → d % 4 ≡ 0
    → (d < 2 ^ 25) ⊎ ((2 ^ 32 - 2 ^ 25 ≤ d) × (d < 2 ^ 32))
    → (insn : ℕ) → insn ≡ 18 * 2 ^ 26 + bits 0 24 (d / 4) * 2 ^ 2
    → (bits 26 6 insn ≡ 18)
      × (test_bit 0 insn ≡ false)
      × (test_bit 1 insn ≡ false)
      × (li_of insn ≡ d)
b_fields d h k insn e = (omega arith, ground arith, ground arith, ground arith)

i_b-form :
    (target cur : ℕ) → i_b target cur ≡ 18 * 2 ^ 26 + bits 0 24 (sub32 target cur / 4) * 2 ^ 2
unfolding i_b
i_b-form target cur = refl

i_mtspr-form :
    (spr rs : ℕ)
    → i_mtspr spr rs
      ≡ 31 * 2 ^ 26 + rs * 2 ^ 21 + bits 5 5 spr * 2 ^ 16 + bits 0 5 spr * 2 ^ 11 + 467 * 2
unfolding i_mtspr
i_mtspr-form spr rs = refl

back_to_target :
    (target cur : ℕ)
    → target < 2 ^ 32
    → cur + 4 < 2 ^ 32
    → add32 (sub32 (cur + 4) 4) (sub32 target cur) ≡ target
back_to_target target cur h k = omega arith

mtspr_fields :
    (spr rs insn : ℕ)
    → spr < 2 ^ 10
    → rs < 32
    → insn ≡ 31 * 2 ^ 26 + rs * 2 ^ 21 + bits 5 5 spr * 2 ^ 16 + bits 0 5 spr * 2 ^ 11 + 467 * 2
    → (bits 26 6 insn ≡ 31)
      × (bits 1 10 insn ≡ 467)
      × (rd_of insn ≡ rs)
      × (sprn_of insn ≡ spr % 32 * 32 + spr / 32)
mtspr_fields spr rs insn h k e = (omega arith, omega arith, omega arith, omega arith)

-- a register that is not there is not written
unknown_spr : (n v : ℕ) (r : PpcRegs) → 543 < n → n < 1024 → write_spr n v r ≡ r
unfolding write_spr
unknown_spr n v r h k = ground arith

update_twice : (f : ℕ → ℕ) (r a b : ℕ) (j : ℕ) → update (update f r a) r b j ≡ update f r b j
update_twice f r a b j = ground arith

update_same : (f : ℕ → ℕ) (i v : ℕ) → update f i v i ≡ v
update_same f i v = ground arith

module _ ⦃bus : BusInterface⦄ where
  dispatch-key : (insn key : ℕ) → bits 26 6 insn ≡ key → dispatch insn ≡ select key arms op_ill insn
  unfolding dispatch
  dispatch-key insn key h = ap (λ k. select k arms op_ill insn) h

  dispatch-addis :
      (r hi : ℕ) (s : Core)
      → r < 32
      → hi < 2 ^ 16
      → dispatch (i_addis r 0 hi) s ≡ value (with_regs (set_gpr r (hi * 2 ^ 16) s.0.regs) s, ok 1)
  unfolding arms select op_addis on_regs
  dispatch-addis r hi s h k =
      let (key, rd, ra, imm) = addis_fields r hi h k in
      ap (λ m. m s) (dispatch-key (i_addis r 0 hi) 15 key)
      ∙ rw rd (
          rw ra (rw imm (ap (λ v. value (with_regs (set_gpr r v s.0.regs) s, ok 1)) (omega arith))))

  dispatch-ori :
      (r lo : ℕ) (s : Core)
      → r < 32
      → lo < 2 ^ 16
      → dispatch (i_ori r r lo) s
        ≡ value (with_regs (set_gpr r (bit_or (s.0.regs.gpr r) lo) s.0.regs) s, ok 1)
  unfolding arms select op_ori on_regs
  dispatch-ori r lo s h k =
      let (key, rd, ra, imm) = ori_fields r lo h k in
      ap (λ m. m s) (dispatch-key (i_ori r r lo) 24 key) ∙ rw rd (rw ra (rw imm refl))

  -- The two instructions that the generator writes for a constant, ADDIS with the high half and ORI with
  -- the low one, leave that constant in the register, and no other register and nothing on the bus
  -- changes.
  pub load_constant :
      (r hi lo : ℕ) (s : Core)
      → r < 32
      → hi < 2 ^ 16
      → lo < 2 ^ 16
      → Reaches ((dispatch (i_addis r 0 hi) >>= λ n. dispatch (i_ori r r lo)) s) (λ t.
        (t.0.regs.gpr r ≡ hi * 2 ^ 16 + lo)
        × ((j : ℕ) → j ≢ r → t.0.regs.gpr j ≡ s.0.regs.gpr j)
        × (record t.0 { regs = record t.0.regs { gpr = s.0.regs.gpr } } ≡ s.0)
        × (t.1 ≡ s.1))
  unfolding ◌>>=◌ continue
  load_constant r hi lo s h k l = record {
    after =
        let high = set_gpr r (hi * 2 ^ 16) s.0.regs in
        with_regs (set_gpr r (bit_or (high.gpr r) lo) high) s;
    done =
        ap (λ x. continue x (λ n. dispatch (i_ori r r lo))) (dispatch-addis r hi s h k)
        ∙ dispatch-ori r lo (with_regs (set_gpr r (hi * 2 ^ 16) s.0.regs) s) h l;
    holds = (
      update_same (update s.0.regs.gpr r (hi * 2 ^ 16)) r _
          ∙ ap (λ x. bit_or x lo) (update_same s.0.regs.gpr r (hi * 2 ^ 16))
          ∙ bit_or-low 16 hi lo l,
      λ j n. ground arith,
      refl,
      refl,
    );
  }

  -- A branch that the generator writes at `cur` for `target`, a multiple of four away and less than
  -- 32 MB in either direction, goes to `target` and changes no other register.
  pub dispatch-i_b :
      (target cur : ℕ) (s : Core)
      → target < 2 ^ 32
      → cur + 4 < 2 ^ 32
      → sub32 target cur % 4 ≡ 0
      → (sub32 target cur < 2 ^ 25)
        ⊎ ((2 ^ 32 - 2 ^ 25 ≤ sub32 target cur) × (sub32 target cur < 2 ^ 32))
      → s.0.regs.pc ≡ cur + 4
      → dispatch (i_b target cur) s ≡ value (with_regs (record s.0.regs { pc = target }) s, ok 1)
  unfolding arms select op_b on_regs
  dispatch-i_b target cur s h k e d p =
      let (key, lk, aa, li) =
        b_fields (sub32 target cur) e d (i_b target cur) (i_b-form target cur) in
      ap (λ m. m s) (dispatch-key (i_b target cur) 18 key)
      ∙ rw lk (
          rw aa (
            rw li (
              rw p (
                ap (λ v. value (with_regs (record s.0.regs { pc = v }) s, ok 1))
                  (back_to_target target cur h k)))))

  dispatch-i_mtspr :
      (spr rs : ℕ) (s : Core)
      → spr < 2 ^ 10
      → rs < 32
      → dispatch (i_mtspr spr rs) s
        ≡ value
            (with_regs (write_spr (spr % 32 * 32 + spr / 32) (s.0.regs.gpr rs) s.0.regs) s, ok 1)
  unfolding arms select op_xform x_arms op_mtspr on_regs
  dispatch-i_mtspr spr rs s h k =
      let (key, xop, rd, n) = mtspr_fields spr rs (i_mtspr spr rs) h k (i_mtspr-form spr rs) in
      ap (λ m. m s) (dispatch-key (i_mtspr spr rs) 31 key) ∙ rw xop (rw rd (rw n refl))

  -- The generator puts the halves of the number of a special purpose register the wrong way round, so that
  -- of the sixteen block address registers, 528 to 543, its MTSPR reaches the first only: any other one
  -- is not written, and nothing changes.
  pub i_mtspr-blocks :
      (spr rs : ℕ) (s : Core)
      → 528 < spr
      → spr < 544
      → rs < 32
      → (dispatch (i_mtspr spr rs) s ≡ value (s, ok 1))
        × (dispatch (i_mtspr 528 rs) s
            ≡ value (
              with_regs (record s.0.regs { ibat = update s.0.regs.ibat 0 (s.0.regs.gpr rs) }) s,
              ok 1,
            ))
  unfolding write_spr
  i_mtspr-blocks spr rs s h k l = (
    dispatch-i_mtspr spr rs s (omega arith) l
        ∙ ap (λ r. value (with_regs r s, ok 1))
            (unknown_spr (spr % 32 * 32 + spr / 32) (s.0.regs.gpr rs) s.0.regs (omega arith)
              (omega arith)),
    dispatch-i_mtspr 528 rs s (omega arith) l,
  )
