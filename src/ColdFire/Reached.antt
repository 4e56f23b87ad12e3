-- ===== src/ColdFire/Reached.antt =====
-- src/cpu/coldfire.rs, `dispatch`: the handlers that an instruction word can reach.
use monte_lauro_ml_cd32_ppc.Base.{
  ℕ, ◌+◌, ◌*◌, ◌/◌, ◌%◌, ◌^◌, ◌≤◌, ◌<◌, Bool, true, false, ◌&&◌, List, [], ◌∷◌, ◌++◌, if◌then◌else◌,
  leb, ◌==◌, bits, update, u32, ◌≡◌, ◌≢◌, refl, ◌∙◌, ap, arith, Bool-cases, inl, inr,
}
use monte_lauro_ml_cd32_ppc.Base.Run.{value}
use monte_lauro_ml_cd32_ppc.Base.Exec.{ok, pure, ◌>>=◌, continue}
use monte_lauro_ml_cd32_ppc.Base.Arms.{select}
use monte_lauro_ml_cd32_ppc.Bus.Interface.{BusInterface}
use monte_lauro_ml_cd32_ppc.ColdFire.{
  Cf, Core, op_ill, dn_of, flags, get_regs, set_regs, update_flags,
}
use monte_lauro_ml_cd32_ppc.ColdFire.Moves.{op_lea, op_swap}
use monte_lauro_ml_cd32_ppc.ColdFire.Logic.{op_asr, op_lsr}
use monte_lauro_ml_cd32_ppc.ColdFire.Frames.{Reaches}
use monte_lauro_ml_cd32_ppc.ColdFire.Dispatch.{
  arms_4, arms_4_rest, dispatch_4, dispatch_e, dispatch,
}

and_right : (a b : Bool) → (a && b) ≡ true → b ≡ true
and_right true b h = h
and_right false b h = absurd (ground arith)

first_shifts :
    {A : Type 0} (hi : ℕ) (asr lsr roxr ror ill : A)
    → 0xE0 ≤ hi
    → hi ≤ 0xEF
    → (if leb 0xE0 hi && leb hi 0xE7
        then asr
        else if leb 0xE8 hi && leb hi 0xEF
        then lsr
        else if leb 0xF0 hi && leb hi 0xF7
        then roxr
        else if leb 0xF8 hi && leb hi 0xFF
        then ror
        else ill)
      ≡ (if leb hi 0xE7 then asr else lsr)
first_shifts hi asr lsr roxr ror ill h k = ground arith

is_other : (x k : ℕ) → x ≢ k → (x == k) ≡ false
is_other x k h = ground arith

module _ ⦃bus : BusInterface⦄ where
  -- no key of the table is below `k`
  abbrev all_from : ℕ → List (ℕ × (ℕ → Cf ℕ)) → Bool
  all_from k [] = true
  all_from k ((key, handler) ∷ arms) = leb k key && all_from k arms

  select-none_below :
      (k key : ℕ) (arms : List (ℕ × (ℕ → Cf ℕ))) (other : ℕ → Cf ℕ)
      → key < k
      → all_from k arms ≡ true
      → select key arms other ≡ other
  unfolding select
  select-none_below k key [] other h hs = refl
  select-none_below k key ((key', handler) ∷ arms) other h hs = elim (Bool-cases (key == key')) [
    | inl e ↦ absurd (ground arith)
    | inr e ↦ rw e (select-none_below k key arms other h (and_right (leb k key') _ hs))
  ]

  select-append :
      (key : ℕ) (xs ys : List (ℕ × (ℕ → Cf ℕ))) (other : ℕ → Cf ℕ)
      → select key (xs ++ ys) other ≡ select key xs (select key ys other)
  unfolding select
  select-append key [] ys other = refl
  select-append key ((k, handler) ∷ xs) ys other =
      ap (λ m. if key == k then handler else m) (select-append key xs ys other)

  -- what is below 0x50 is in the first part of the table, or illegal
  first_arms :
      (key : ℕ) → key < 0x50 → select key (arms_4 ++ arms_4_rest) op_ill ≡ select key arms_4 op_ill
  unfolding arms_4_rest
  first_arms key h =
      select-append key arms_4 arms_4_rest op_ill
      ∙ ap (select key arms_4) (select-none_below 0x50 key arms_4_rest op_ill h refl)

  dispatch-group_4 : (op : ℕ) → op / 2 ^ 12 ≡ 4 → dispatch op ≡ dispatch_4 op
  unfolding dispatch
  dispatch-group_4 op h = rw h refl

  dispatch-group_e : (op : ℕ) → op / 2 ^ 12 ≡ 0xE → dispatch op ≡ dispatch_e op
  unfolding dispatch
  dispatch-group_e op h = rw h refl

  dispatch_4-first_arms :
      (op : ℕ)
      → bits 8 8 op < 0x50
      → dispatch_4 op
        ≡ (if bits 6 3 op == 7 then op_lea op else select (bits 8 8 op) arms_4 op_ill op)
  unfolding dispatch_4
  dispatch_4-first_arms op h =
      ap (λ m. if bits 6 3 op == 7 then op_lea op else m op) (first_arms (bits 8 8 op) h)

  -- An instruction word that starts with the digit 4 is LEA, or reaches one of the first thirteen arms
  -- of its table, or is illegal: the arms from 0x50 on are never taken.
  pub dispatch-first_arms :
      (op : ℕ)
      → op / 2 ^ 12 ≡ 4
      → dispatch op ≡ (if bits 6 3 op == 7 then op_lea op else select (op / 2 ^ 8) arms_4 op_ill op)
  dispatch-first_arms op h =
      dispatch-group_4 op h
      ∙ dispatch_4-first_arms op (omega arith)
      ∙ ap (λ key. if bits 6 3 op == 7 then op_lea op else select key arms_4 op_ill op)
          (omega arith)

  -- An instruction word that starts with the digit 0xE is ASR or LSR, never ROXR or ROR.
  pub dispatch-shifts :
      (op : ℕ)
      → op / 2 ^ 12 ≡ 0xE
      → dispatch op ≡ (if leb (op / 2 ^ 8) 0xE7 then op_asr op else op_lsr op)
  unfolding dispatch_e
  dispatch-shifts op h =
      dispatch-group_e op h ∙ first_shifts (op / 2 ^ 8) _ _ _ _ _ (omega arith) (omega arith)

  select-swap : (key : ℕ) → key ≡ 0x48 → select key arms_4 op_ill ≡ op_swap
  unfolding arms_4 select
  select-swap key h = rw h refl

  -- the core after SWAP of register `i`
  abbrev swapped : ℕ → Core → Core
  swapped i s =
      let v = s.0.regs.d i in
      let x = u32 (v * 2 ^ 16) + v / 2 ^ 16 in
      let regs = record s.0.regs {
        d = update s.0.regs.d i x;
        sr = flags x 4 false false s.0.regs.sr;
      } in
      (record s.0 { regs = regs }, s.1)

  op_swap-swapped : (op : ℕ) (s : Core) → op_swap op s ≡ value (swapped (dn_of op) s, ok 1)
  unfolding op_swap get_regs set_regs update_flags pure ◌>>=◌ continue
  op_swap-swapped op s = refl

  -- SWAP, whichever register its low bits name, exchanges the halves of D4 and leaves the other data
  -- registers alone.
  dispatch-swap :
      (op : ℕ) (s : Core)
      → op / 2 ^ 8 ≡ 0x48
      → bits 6 3 op ≢ 7
      → s.0.regs.d 4 < 2 ^ 32
      → Reaches (dispatch op s) (λ t.
        (t.0.regs.d 4 % 2 ^ 16 ≡ s.0.regs.d 4 / 2 ^ 16)
        × (t.0.regs.d 4 / 2 ^ 16 ≡ s.0.regs.d 4 % 2 ^ 16)
        × ((i : ℕ) → i ≢ 4 → t.0.regs.d i ≡ s.0.regs.d i))
  dispatch-swap op s h k hv = record {
    after = swapped 4 s;
    done =
        ap (λ m. m s) (dispatch-first_arms op (omega arith))
        ∙ rw (is_other (bits 6 3 op) 7 k) (
            ap (λ m. m op s) (select-swap (op / 2 ^ 8) h)
            ∙ op_swap-swapped op s
            ∙ ap (λ i. value (swapped i s, ok 1)) (omega arith));
    holds = (omega arith, omega arith, λ i h. ground arith);
  }
