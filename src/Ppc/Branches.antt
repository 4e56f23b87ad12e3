-- ===== src/Ppc/Branches.antt =====
-- src/cpu/ppc603e.rs: where branches go, what a comparison makes of them, and how an interrupt comes
-- back.
use monte_lauro_ml_cd32_ppc.Base.{
  ℕ, zero, suc, ◌+◌, ◌-◌, ◌*◌, ◌/◌, ◌%◌, ◌^◌, ◌<◌, Bool, true, false, ◌&&◌, not, if◌then◌else◌,
  ◌==◌, bits, add32, sub32, sext16, ◌≡◌, refl, ◌∙◌, ap, arith,
}
use monte_lauro_ml_cd32_ppc.Base.Int.{ℤ, signed, ltb_ℤ}
use monte_lauro_ml_cd32_ppc.Base.Exec.{◌>>=◌, continue}
use monte_lauro_ml_cd32_ppc.Bus.Interface.{BusInterface}
use monte_lauro_ml_cd32_ppc.Ppc.{Core, PpcRegs, Reaches, on_regs, ra_of, rb_of, put_field}
use monte_lauro_ml_cd32_ppc.Ppc.Logic.{op_cmp, compared, crf_of}
use monte_lauro_ml_cd32_ppc.Ppc.Branch.{
  op_bc, op_bform, bo_of, bi_of, bd_of, branch_target, branch_counting, linked, condition,
}

-- the displacement of the second version is that of the first
bform_displacement : (insn : ℕ) → sext16 insn / 4 * 4 ≡ bd_of insn
bform_displacement insn = ground arith

relative_target :
    (pc bd : ℕ) → pc < 2 ^ 32 → bd < 2 ^ 32 → add32 pc (sub32 bd 4) ≡ add32 (sub32 pc 4) bd
relative_target pc bd h k = omega arith

bd_of-lt : (insn : ℕ) → bd_of insn < 2 ^ 32
bd_of-lt insn = ground arith

module _ ⦃bus : BusInterface⦄ where
  -- The unused `op_bform` does what opcode 16 does.
  op_bform-op_bc : (insn : ℕ) (s : Core) → s.0.regs.pc < 2 ^ 32 → op_bform insn s ≡ op_bc insn s
  unfolding op_bform op_bc on_regs
  op_bform-op_bc insn s h =
      rw (bform_displacement insn)
        (rw (relative_target s.0.regs.pc (bd_of insn) h (bd_of-lt insn)) refl)

  -- BDNZ should loop while the counter, less one, is not 0. It does the opposite: it goes to its target
  -- exactly if that is 0 and the bit BI of the condition register is 0 too, and falls through else.
  pub op_bc-bdnz :
      (insn : ℕ) (s : Core)
      → bo_of insn ≡ 16
      → Reaches (op_bc insn s) (λ t.
        let ctr = sub32 s.0.regs.ctr 1 in
        (t.0.regs.ctr ≡ ctr)
        × (t.0.regs.pc ≡ (
            if ctr == 0 && bits (31 - bi_of insn) 1 s.0.regs.cr == 0
            then branch_target insn (bd_of insn) s.0.regs.pc
            else s.0.regs.pc)))
  unfolding op_bc on_regs
  op_bc-bdnz insn s hb = record { after = _; done = refl; holds = ground arith }

-- the bits LT, GT and EQ of a field that has been put
pub field_bits :
    (f v cr : ℕ)
    → f < 8
    → v < 16
    → (bits (31 - (4 * f + 0)) 1 (put_field f v cr) ≡ v / 8)
      × (bits (31 - (4 * f + 1)) 1 (put_field f v cr) ≡ v / 4 % 2)
      × (bits (31 - (4 * f + 2)) 1 (put_field f v cr) ≡ v / 2 % 2)
field_bits zero v cr h k = (omega arith, omega arith, omega arith)
field_bits (suc zero) v cr h k = (omega arith, omega arith, omega arith)
field_bits (suc (suc zero)) v cr h k = (omega arith, omega arith, omega arith)
field_bits (suc (suc (suc zero))) v cr h k = (omega arith, omega arith, omega arith)
field_bits (suc (suc (suc (suc zero)))) v cr h k = (omega arith, omega arith, omega arith)
field_bits (suc (suc (suc (suc (suc zero))))) v cr h k = (omega arith, omega arith, omega arith)
field_bits (suc (suc (suc (suc (suc (suc zero)))))) v cr h k =
    (omega arith, omega arith, omega arith)
field_bits (suc (suc (suc (suc (suc (suc (suc zero))))))) v cr h k =
    (omega arith, omega arith, omega arith)
field_bits (suc (suc (suc (suc (suc (suc (suc (suc f)))))))) v cr h k = absurd (omega arith)

-- what a comparison says of two numbers: bit 0 of a field is LT, bit 1 GT, bit 2 EQ
abbrev ordered : ℕ → Bool → Bool → Bool
ordered k lt gt = if k == 0 then lt else if k == 1 then gt else not lt && not gt

condition-ordered :
    (f k cr : ℕ) (lt gt : Bool)
    → f < 8
    → k < 3
    → (lt && gt) ≡ false
    → condition 12 (4 * f + k) (put_field f (compared lt gt) cr) ≡ ordered k lt gt
condition-ordered f zero cr true true h hk e = cc
condition-ordered f zero cr true false h hk e = rw (field_bits f 8 cr h (omega arith)).0 refl
condition-ordered f zero cr false true h hk e = rw (field_bits f 4 cr h (omega arith)).0 refl
condition-ordered f zero cr false false h hk e = rw (field_bits f 2 cr h (omega arith)).0 refl
condition-ordered f (suc zero) cr true true h hk e = cc
condition-ordered f (suc zero) cr true false h hk e = rw (field_bits f 8 cr h (omega arith)).1 refl
condition-ordered f (suc zero) cr false true h hk e = rw (field_bits f 4 cr h (omega arith)).1 refl
condition-ordered f (suc zero) cr false false h hk e = rw (field_bits f 2 cr h (omega arith)).1 refl
condition-ordered f (suc (suc zero)) cr true true h hk e = cc
condition-ordered f (suc (suc zero)) cr true false h hk e =
    rw (field_bits f 8 cr h (omega arith)).2 refl
condition-ordered f (suc (suc zero)) cr false true h hk e =
    rw (field_bits f 4 cr h (omega arith)).2 refl
condition-ordered f (suc (suc zero)) cr false false h hk e =
    rw (field_bits f 2 cr h (omega arith)).2 refl
condition-ordered f (suc (suc (suc k))) cr lt gt h hk e = absurd (omega arith)

signed_asym : (a b : ℤ) → (ltb_ℤ a b && ltb_ℤ b a) ≡ false
signed_asym a b = ground arith

branch_on_true :
    (insn target : ℕ) (r : PpcRegs)
    → bo_of insn ≡ 12
    → (branch_counting insn target (linked insn r)).pc
      ≡ (if condition 12 (bi_of insn) r.cr then target else r.pc)
branch_on_true insn target r h = rw h (ground arith)

module _ ⦃bus : BusInterface⦄ where
  -- CMP of two registers into a field of the condition register, and then a branch that is taken if the
  -- bit LT, GT or EQ of that field is set: it goes to its target exactly if the one register is below,
  -- above or equal to the other as a signed integer, and falls through else.
  pub op_cmp-op_bc :
      (cmp bc k : ℕ) (s : Core)
      → k < 3
      → bo_of bc ≡ 12
      → bi_of bc ≡ 4 * crf_of cmp + k
      → let a = signed 32 (s.0.regs.gpr (ra_of cmp)) in
        let b = signed 32 (s.0.regs.gpr (rb_of cmp)) in
        Reaches ((op_cmp cmp >>= λ n. op_bc bc) s) (λ t. t.0.regs.pc ≡ (
          if ordered k (ltb_ℤ a b) (ltb_ℤ b a)
          then branch_target bc (bd_of bc) s.0.regs.pc
          else s.0.regs.pc))
  unfolding op_cmp op_bc on_regs ◌>>=◌ continue
  op_cmp-op_bc cmp bc k s hk ho hi =
      let a = signed 32 (s.0.regs.gpr (ra_of cmp)) in
      let b = signed 32 (s.0.regs.gpr (rb_of cmp)) in
      record {
        after = _;
        done = refl;
        holds =
            branch_on_true bc _ _ ho
            ∙ ap
                (λ (taken : Bool).
                  if taken then branch_target bc (bd_of bc) s.0.regs.pc else s.0.regs.pc)
                (ap
                    (λ bi.
                      condition 12 bi
                        (put_field (crf_of cmp) (compared (ltb_ℤ a b) (ltb_ℤ b a)) s.0.regs.cr))
                    hi
                  ∙ condition-ordered (crf_of cmp) k s.0.regs.cr (ltb_ℤ a b) (ltb_ℤ b a)
                      (omega arith) hk (signed_asym a b));
      }
