-- ===== src/Hardware/Schedule.antt =====
-- The scheduler keeps the ratio of the two clocks, whatever the processors do.
use monte_lauro_ml_cd32_ppc.Base.{
  ℕ, zero, suc, ◌+◌, ◌*◌, ◌/◌, ◌%◌, ◌≤◌, true, not, if◌then◌else◌, ◌==◌, ◌&&◌, ◌≡◌, ◌≢◌, refl, ap,
  subst, ◌∙◌, arith, Bool-cases, inl, inr, Bytes,
}
use monte_lauro_ml_cd32_ppc.Base.Int.{one_part}
use monte_lauro_ml_cd32_ppc.Base.Run.{Run, value, panic, out_of_fuel, ◌>>=◌}
use monte_lauro_ml_cd32_ppc.Bus.{Bus}
use monte_lauro_ml_cd32_ppc.Bus
use monte_lauro_ml_cd32_ppc.Bus.Ticks.{tick-ends}
use monte_lauro_ml_cd32_ppc.Hardware.{
  Cpu, Machine, tick_dma, one_turn, end_quantum, one_cycle, run_cycles, new, cf_in_quantum,
}
use monte_lauro_ml_cd32_ppc.Hardware.Turns.{
  Stops, IsFair, Leads, broke, reached, new-IsFair, one_turn-Leads,
}

module _ (ppc_cpu cf_cpu : Cpu) (ppc_ok : Stops ppc_cpu) (cf_ok : Stops cf_cpu) where
  end_quantum-Leads :
      (t : ℕ) (h : Machine ppc_cpu cf_cpu)
      → IsFair ppc_cpu cf_cpu t h
      → Leads ppc_cpu cf_cpu (IsFair ppc_cpu cf_cpu t) (end_quantum ppc_cpu cf_cpu h)
  unfolding end_quantum
  end_quantum-Leads t h f = go (Bus.tick cf_in_quantum h.bus) (tick-ends cf_in_quantum h.bus)
    where
      out : Bus → Run (Machine ppc_cpu cf_cpu)
      out b = value (record h {
        bus = tick_dma b;
        boot_complete =
            if cf_cpu.halted h.coldfire && (not h.boot_complete && not h.ppc_hold)
            then true
            else h.boot_complete;
      })

      go :
          (r : Run Bus)
          → r ≢ out_of_fuel
          → Leads ppc_cpu cf_cpu (IsFair ppc_cpu cf_cpu t) (r >>= out)
      go out_of_fuel n = absurd (n refl)
      go panic n = broke refl
      go (value b) n = reached _ refl (record {
        low = f.low;
        high = f.high;
        balance = f.balance;
        held = f.held;
        counted = f.counted;
        clock = f.clock;
      })

  one_cycle-Leads :
      (t : ℕ) (h : Machine ppc_cpu cf_cpu)
      → IsFair ppc_cpu cf_cpu t h
      → Leads ppc_cpu cf_cpu (IsFair ppc_cpu cf_cpu (suc t)) (one_cycle ppc_cpu cf_cpu h)
  unfolding one_cycle
  one_cycle-Leads t h f = go (one_turn-Leads ppc_cpu cf_cpu ppc_ok cf_ok t h f)
    where
      rest : Machine ppc_cpu cf_cpu → Run (Machine ppc_cpu cf_cpu)
      rest h1 =
          let h2 : Machine ppc_cpu cf_cpu = record h1 { total_cycles = h1.total_cycles + 1 } in
          if h2.total_cycles % 16 == 0 then end_quantum ppc_cpu cf_cpu h2 else value h2

      after :
          (k : Machine ppc_cpu cf_cpu)
          → IsFair ppc_cpu cf_cpu (suc t) (record k { total_cycles = k.total_cycles + 1 })
          → Leads ppc_cpu cf_cpu (IsFair ppc_cpu cf_cpu (suc t)) (rest k)
      after k g = elim (Bool-cases ((k.total_cycles + 1) % 16 == 0)) [
        | inl e ↦
            rw e (end_quantum-Leads (suc t) (record k { total_cycles = k.total_cycles + 1 }) g)
        | inr e ↦ rw e (reached _ refl g)
      ]

      go :
          Leads ppc_cpu cf_cpu
            (λ k. IsFair ppc_cpu cf_cpu (suc t) (record k { total_cycles = k.total_cycles + 1 }))
            (one_turn ppc_cpu cf_cpu h)
          → Leads ppc_cpu cf_cpu
              (IsFair ppc_cpu cf_cpu (suc t))
              (one_turn ppc_cpu cf_cpu h >>= rest)
      go (broke e) = broke (ap (λ r. r >>= rest) e)
      go (reached k e g) = carried (after k g)
        where
          carried :
              Leads ppc_cpu cf_cpu (IsFair ppc_cpu cf_cpu (suc t)) (rest k)
              → Leads ppc_cpu cf_cpu
                  (IsFair ppc_cpu cf_cpu (suc t))
                  (one_turn ppc_cpu cf_cpu h >>= rest)
          carried (broke d) = broke (ap (λ r. r >>= rest) e ∙ d)
          carried (reached m d p) = reached m (ap (λ r. r >>= rest) e ∙ d) p

  run_cycles-Leads :
      (n t : ℕ) (h : Machine ppc_cpu cf_cpu)
      → IsFair ppc_cpu cf_cpu t h
      → Leads ppc_cpu cf_cpu (IsFair ppc_cpu cf_cpu (t + n)) (run_cycles ppc_cpu cf_cpu n h)
  unfolding run_cycles
  run_cycles-Leads zero t h f =
      reached h refl (subst (λ k. IsFair ppc_cpu cf_cpu k h) (omega arith) f)
  run_cycles-Leads (suc n) t h f =
      go (λ k g. run_cycles-Leads n (suc t) k g) (one_cycle-Leads t h f)
    where
      go :
          ((k : Machine ppc_cpu cf_cpu)
            → IsFair ppc_cpu cf_cpu (suc t) k
            → Leads ppc_cpu cf_cpu
                (IsFair ppc_cpu cf_cpu (suc t + n))
                (run_cycles ppc_cpu cf_cpu n k))
          → Leads ppc_cpu cf_cpu (IsFair ppc_cpu cf_cpu (suc t)) (one_cycle ppc_cpu cf_cpu h)
          → Leads ppc_cpu cf_cpu
              (IsFair ppc_cpu cf_cpu (t + suc n))
              (one_cycle ppc_cpu cf_cpu h >>= λ k. run_cycles ppc_cpu cf_cpu n k)
      go ih (broke e) = broke (ap (λ r. r >>= λ k. run_cycles ppc_cpu cf_cpu n k) e)
      go ih (reached k e g) = carried (ih k g)
        where
          carried :
              Leads ppc_cpu cf_cpu
                (IsFair ppc_cpu cf_cpu (suc t + n))
                (run_cycles ppc_cpu cf_cpu n k)
              → Leads ppc_cpu cf_cpu
                  (IsFair ppc_cpu cf_cpu (t + suc n))
                  (one_cycle ppc_cpu cf_cpu h >>= λ k. run_cycles ppc_cpu cf_cpu n k)
          carried (broke d) = broke (ap (λ r. r >>= λ k. run_cycles ppc_cpu cf_cpu n k) e ∙ d)
          carried (reached m d p) =
              reached m (ap (λ r. r >>= λ k. run_cycles ppc_cpu cf_cpu n k) e ∙ d)
                (subst (λ j. IsFair ppc_cpu cf_cpu j m) (omega arith) p)

-- With processors whose steps end, running a new machine for any number of cycles either panics
-- or returns, the loop having made exactly that many; then the ColdFire has had 140 of every 406
-- of them, rounded as (140 n + 266) / 406, whatever the two processors did, a PPC that is still
-- held in reset has had none, and the two together no more than there were.
pub schedule_ratio :
    (ppc_cpu cf_cpu : Cpu) (n : ℕ) (bios : Bytes)
    → Stops ppc_cpu
    → Stops cf_cpu
    → Leads ppc_cpu cf_cpu
        (λ h.
          (h.total_cycles ≡ n)
          × (h.cf_cycles ≡ (140 * n + 266) / 406)
          × (h.ppc_hold ≡ true → h.ppc_cycles ≡ 0)
          × (h.ppc_cycles + h.cf_cycles ≤ n))
        (run_cycles ppc_cpu cf_cpu n (new ppc_cpu cf_cpu bios))
schedule_ratio ppc_cpu cf_cpu n bios p c = go (
    run_cycles-Leads ppc_cpu cf_cpu p c n 0 (new ppc_cpu cf_cpu bios)
      (new-IsFair ppc_cpu cf_cpu bios))
  where
    Good : Machine ppc_cpu cf_cpu → Type 0
    Good h =
        (h.total_cycles ≡ n)
        × (h.cf_cycles ≡ (140 * n + 266) / 406)
        × (h.ppc_hold ≡ true → h.ppc_cycles ≡ 0)
        × (h.ppc_cycles + h.cf_cycles ≤ n)

    rounded : (h : Machine ppc_cpu cf_cpu) → IsFair ppc_cpu cf_cpu (0 + n) h → Good h
    rounded h f =
        let t : h.total_cycles ≡ n = omega (arith, f.clock) in
        (
          t,
          omega (arith, f.low, f.high, f.balance, one_part h.cycle_acc),
          f.held,
          omega (arith, f.counted),
        )

    go :
        Leads ppc_cpu cf_cpu
          (IsFair ppc_cpu cf_cpu (0 + n))
          (run_cycles ppc_cpu cf_cpu n (new ppc_cpu cf_cpu bios))
        → Leads ppc_cpu cf_cpu Good (run_cycles ppc_cpu cf_cpu n (new ppc_cpu cf_cpu bios))
    go (broke e) = broke e
    go (reached h e f) = reached h e (rounded h f)
