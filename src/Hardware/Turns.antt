-- ===== src/Hardware/Turns.antt =====
-- One turn of the loop of `run_cycles`, src/hardware.rs: what it does to the debt and the counts.
use monte_lauro_ml_cd32_ppc.Base.{
  ℕ, suc, ◌+◌, ◌*◌, ◌≤◌, ◌<◌, Bool, true, false, not, ◌&&◌, ◌≡◌, ◌≢◌, refl, arith, Bool-cases, inl,
  inr, Bytes, leb→le, leb→gt,
}
use monte_lauro_ml_cd32_ppc.Base.Int.{
  pos, pos_part, neg_part, leb_ℤ, ◌≤ℤ◌, ◌+ℤ◌, ◌-ℤ◌, +ℤ_parts, -ℤ_parts, one_part,
}
use monte_lauro_ml_cd32_ppc.Base.Run.{Run, value, panic, out_of_fuel, ◌>>=◌}
use monte_lauro_ml_cd32_ppc.Bus.{Bus}
use monte_lauro_ml_cd32_ppc.Bus.Access.{ppc_irq_pending, cf_irq_pending}
use monte_lauro_ml_cd32_ppc.Hardware.{
  Cpu, Machine, is_some, wake, after_step, turn, coldfire_turn, ppc_turn, held_turn, one_turn, new,
}

-- A processor whose steps come to an end.
abbrev pub Stops : Cpu → Type 0
Stops cpu = (s : cpu.State) (b : Bus) → cpu.step s b ≢ out_of_fuel

turn-ends :
    (cpu : Cpu) (irq : Bool) (s : cpu.State) (b : Bus) → Stops cpu → turn cpu irq s b ≢ out_of_fuel
unfolding turn
turn-ends cpu irq s b ok = elim (Bool-cases (cpu.halted (wake cpu irq s))) [
  | inl e ↦ rw e (λ h. cc)
  | inr e ↦ rw e (go (cpu.step (wake cpu irq s) b) (ok (wake cpu irq s) b))
]
  where
    go :
        (r : Run (cpu.State × Bus × Bool))
        → r ≢ out_of_fuel
        → (r >>= λ x. value (after_step cpu x)) ≢ out_of_fuel
    go (value x) p h = cc
    go panic p h = cc
    go out_of_fuel p h = p refl

and_left : (a b : Bool) → (a && b) ≡ true → a ≡ true
and_left true b h = refl
and_left false b h = h

module _ (ppc_cpu cf_cpu : Cpu) where
  -- The debt of the PPC lies between one turn of the ColdFire and one of its own, it is the
  -- difference of the clocks that the turns make up, and a PPC in reset has run no cycle.
  pub record IsFair (t : ℕ) (h : Machine ppc_cpu cf_cpu) : Type 0 where
    pub low : neg_part h.cycle_acc ≤ 266
    pub high : pos_part h.cycle_acc < 140
    pub balance :
        pos_part h.cycle_acc + 406 * h.cf_cycles ≡ neg_part h.cycle_acc + 140 * h.total_cycles
    pub held : h.ppc_hold ≡ true → h.ppc_cycles ≡ 0
    pub counted : h.ppc_cycles + h.cf_cycles ≤ h.total_cycles
    pub clock : h.total_cycles ≡ t

  -- A run that panics, or that leads to a machine with `P`.
  pub data Leads (P : Machine ppc_cpu cf_cpu → Type 0) (r : Run (Machine ppc_cpu cf_cpu))
      : Type 0 where
    broke : r ≡ panic → Leads P r
    reached : (h : Machine ppc_cpu cf_cpu) → r ≡ value h → P h → Leads P r

  pub new-IsFair : (bios : Bytes) → IsFair 0 (new ppc_cpu cf_cpu bios)
  unfolding new
  new-IsFair bios = ground arith

  module _ (ppc_ok : Stops ppc_cpu) (cf_ok : Stops cf_cpu) where
    coldfire_turn-Leads :
        (t : ℕ) (h : Machine ppc_cpu cf_cpu)
        → IsFair t h
        → pos 0 ≤ℤ h.cycle_acc
        → Leads
            (λ k. IsFair (suc t) (record k { total_cycles = k.total_cycles + 1 }))
            (coldfire_turn ppc_cpu cf_cpu h)
    unfolding coldfire_turn
    coldfire_turn-Leads t h f p =
        go (turn cf_cpu (is_some (cf_irq_pending h.bus)) h.coldfire h.bus)
          (turn-ends cf_cpu (is_some (cf_irq_pending h.bus)) h.coldfire h.bus cf_ok)
      where
        out : cf_cpu.State × Bus → Run (Machine ppc_cpu cf_cpu)
        out r = value (record h {
          coldfire = r.0;
          bus = r.1;
          cf_cycles = h.cf_cycles + 1;
          cycle_acc = h.cycle_acc -ℤ pos 266;
          ppc_hold = h.ppc_hold && not (cf_cpu.halted r.0);
        })

        go :
            (r : Run (cf_cpu.State × Bus))
            → r ≢ out_of_fuel
            → Leads
                (λ k. IsFair (suc t) (record k { total_cycles = k.total_cycles + 1 }))
                (r >>= out)
        go out_of_fuel n = absurd (n refl)
        go panic n = broke refl
        go (value r) n = reached _ refl (record {
          low = omega (
            arith,
            -ℤ_parts h.cycle_acc (pos 266),
            one_part (h.cycle_acc -ℤ pos 266),
            one_part h.cycle_acc,
          );
          high = omega (
            arith,
            -ℤ_parts h.cycle_acc (pos 266),
            one_part (h.cycle_acc -ℤ pos 266),
            one_part h.cycle_acc,
          );
          balance = omega (arith, f.balance, -ℤ_parts h.cycle_acc (pos 266));
          held = λ e. f.held (and_left _ _ e);
          counted = omega (arith, f.counted);
          clock = omega (arith, f.clock);
        })

    -- the balance after 140 has been added below zero
    credited :
        (t : ℕ) (h : Machine ppc_cpu cf_cpu)
        → IsFair t h
        → 0 < neg_part h.cycle_acc
        → (neg_part (h.cycle_acc +ℤ pos 140) ≤ 266)
          × (pos_part (h.cycle_acc +ℤ pos 140) < 140)
          × (pos_part (h.cycle_acc +ℤ pos 140) + 406 * h.cf_cycles
              ≡ neg_part (h.cycle_acc +ℤ pos 140) + 140 * (h.total_cycles + 1))
    credited t h f p =
        let parts = +ℤ_parts h.cycle_acc (pos 140) in
        let one = one_part (h.cycle_acc +ℤ pos 140) in
        let before = one_part h.cycle_acc in
        (omega (arith, f.low), omega arith, omega (arith, f.balance))

    ppc_turn-Leads :
        (t : ℕ) (h : Machine ppc_cpu cf_cpu)
        → IsFair t h
        → 0 < neg_part h.cycle_acc
        → h.ppc_hold ≡ false
        → Leads
            (λ k. IsFair (suc t) (record k { total_cycles = k.total_cycles + 1 }))
            (ppc_turn ppc_cpu cf_cpu h)
    unfolding ppc_turn
    ppc_turn-Leads t h f p free =
        go (turn ppc_cpu (ppc_irq_pending h.bus) h.ppc h.bus)
          (turn-ends ppc_cpu (ppc_irq_pending h.bus) h.ppc h.bus ppc_ok)
      where
        out : ppc_cpu.State × Bus → Run (Machine ppc_cpu cf_cpu)
        out r = value (record h {
          ppc = r.0;
          bus = r.1;
          ppc_cycles = h.ppc_cycles + 1;
          cycle_acc = h.cycle_acc +ℤ pos 140;
        })

        go :
            (r : Run (ppc_cpu.State × Bus))
            → r ≢ out_of_fuel
            → Leads
                (λ k. IsFair (suc t) (record k { total_cycles = k.total_cycles + 1 }))
                (r >>= out)
        go out_of_fuel n = absurd (n refl)
        go panic n = broke refl
        go (value r) n =
            let (l, u, b) = credited t h f p in
            reached _ refl (record {
              low = l;
              high = u;
              balance = b;
              held = λ e. cc;
              counted = omega (arith, f.counted);
              clock = omega (arith, f.clock);
            })

    pub one_turn-Leads :
        (t : ℕ) (h : Machine ppc_cpu cf_cpu)
        → IsFair t h
        → Leads
            (λ k. IsFair (suc t) (record k { total_cycles = k.total_cycles + 1 }))
            (one_turn ppc_cpu cf_cpu h)
    unfolding one_turn held_turn
    one_turn-Leads t h f = elim (Bool-cases (leb_ℤ (pos 0) h.cycle_acc)) [
      | inl e ↦ rw e (coldfire_turn-Leads t h f (leb→le _ _ e))
      | inr e ↦ elim (Bool-cases h.ppc_hold) [
        | inr free ↦ simp (e, free) (ppc_turn-Leads t h f (behind e) free)
        | inl hold ↦
            simp (e, hold)
              (let (l, u, b) = credited t h f (behind e) in
                reached _ refl (record {
                  low = l;
                  high = u;
                  balance = b;
                  held = λ e. f.held hold;
                  counted = omega (arith, f.counted);
                  clock = omega (arith, f.clock);
                }))
      ]
    ]
      where
        behind : leb_ℤ (pos 0) h.cycle_acc ≡ false → 0 < neg_part h.cycle_acc
        behind e = omega (arith, leb→gt _ _ e)
