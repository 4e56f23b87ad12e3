-- ===== src/Ppc/Pages.antt =====
-- src/cpu/ppc603e.rs, `translate`: where an address goes by the block address registers, and which
-- addresses the page table never reaches.
use monte_lauro_ml_cd32_ppc.Base.{
  ℕ, zero, suc, ◌+◌, ◌*◌, ◌/◌, ◌%◌, ◌^◌, ◌<◌, ◌≤◌, Bool, true, false, ◌&&◌, Option, none, some,
  ◌==◌, test_bit, ◌≡◌, refl, arith, Bool-cases, inl, inr,
}
use native.Mathlib.Decide.{dec_lt}
use native.Mathlib.Nat.{mod-lt, one-le-pow}
use monte_lauro_ml_cd32_ppc.Base.Masks.{block_parts}
use monte_lauro_ml_cd32_ppc.Base.Exec.{Exit, ok, fault}
use monte_lauro_ml_cd32_ppc.Bus.Interface.{BusInterface}
use monte_lauro_ml_cd32_ppc.Ppc.{PpcRegs, PpcError, page_fault}
use monte_lauro_ml_cd32_ppc.Ppc.Mmu.{
  translate, translates, bats_of, bat_lookup, bat_valid, same_block, in_block, block_bits,
  block_number, walk_table, search_group, pte_result, pte_matches, api_of, or_page_fault, or_else,
}

-- an entry that is valid has an odd `api`, since the two share a bit
odd_entry :
    (vsid hbit api pte0 : ℕ)
    → api % 2 ≡ 0
    → test_bit 0 pte0 ≡ true
    → pte_matches vsid hbit api pte0 ≡ false
odd_entry vsid hbit api pte0 h e = ground arith

no_match :
    (vsid hbit api pte0 : ℕ)
    → api % 2 ≡ 0
    → (test_bit 0 pte0 && pte_matches vsid hbit api pte0) ≡ false
no_match vsid hbit api pte0 h = elim (Bool-cases (test_bit 0 pte0)) [
  | inl e ↦ rw e (odd_entry vsid hbit api pte0 h e)
  | inr e ↦ rw e refl
]

module _ ⦃bus : BusInterface⦄ where
  -- a page fault, or no answer
  abbrev Missed : ℕ → Option (Exit PpcError ℕ) → Type 0
  Missed addr none = Unit
  Missed addr (some e) = e ≡ fault (page_fault addr)

  entry-Missed :
      (addr vsid hbit pte_addr : ℕ) (b : bus.State) (o : Option ℕ)
      → api_of addr % 2 ≡ 0
      → Missed addr (pte_result addr vsid hbit pte_addr b o)
  entry-Missed addr vsid hbit pte_addr b none h = refl
  entry-Missed addr vsid hbit pte_addr b (some pte0) h =
      rw (no_match vsid hbit (api_of addr) pte0 h) tt

  or_else-Missed :
      (addr : ℕ) (x y : Option (Exit PpcError ℕ))
      → Missed addr x
      → Missed addr y
      → Missed addr (or_else x y)
  or_else-Missed addr none y h k = k
  or_else-Missed addr (some e) y h k = h

  search_group-Missed :
      (n addr vsid hbit pte_addr : ℕ) (b : bus.State)
      → api_of addr % 2 ≡ 0
      → Missed addr (search_group n addr vsid hbit pte_addr b)
  unfolding search_group
  search_group-Missed zero addr vsid hbit pte_addr b h = tt
  search_group-Missed (suc n) addr vsid hbit pte_addr b h =
      or_else-Missed addr _ _ (entry-Missed addr vsid hbit pte_addr b (bus.read_word b pte_addr) h)
        (search_group-Missed n addr vsid hbit (pte_addr + 8) b h)

  Missed-fault :
      (addr : ℕ) (o : Option (Exit PpcError ℕ))
      → Missed addr o
      → or_page_fault addr o ≡ fault (page_fault addr)
  Missed-fault addr none h = refl
  Missed-fault addr (some e) h = h

  walk_table-fault :
      (r : PpcRegs) (addr : ℕ) (b : bus.State)
      → api_of addr % 2 ≡ 0
      → walk_table r addr b ≡ fault (page_fault addr)
  unfolding walk_table
  walk_table-fault r addr b h = elim (Bool-cases (r.sdr1 == 0)) [
    | inl e ↦ rw e refl
    | inr e ↦ rw e (
        Missed-fault addr _ (
          or_else-Missed addr _ _ (search_group-Missed 8 addr _ 0 _ b h)
            (search_group-Missed 8 addr _ 1 _ b h)))
  ]

  -- The page table never translates an address whose bit 22 is clear: with translation on and no block
  -- that covers the address, it is a page fault, whatever the table holds.
  pub translate-no_page :
      (is_data : Bool) (r : PpcRegs) (addr : ℕ) (b : bus.State)
      → translates is_data r ≡ true
      → bat_lookup 4 0 r.msr (bats_of is_data r) addr ≡ none
      → test_bit 22 addr ≡ false
      → translate is_data r addr b ≡ fault (page_fault addr)
  unfolding translate
  translate-no_page is_data r addr b h e k = rw h (rw e (walk_table-fault r addr b (ground arith)))

-- the pair of registers with number `i` is valid and covers the address
abbrev pub covers : (msr : ℕ) (bats : ℕ → ℕ) (addr i : ℕ) → Bool
covers msr bats addr i = bat_valid msr (bats (i * 2)) && same_block (bats (i * 2)) addr

bat_lookup-first :
    (n i m msr : ℕ) (bats : ℕ → ℕ) (addr : ℕ)
    → i ≤ m
    → m < i + n
    → covers msr bats addr m ≡ true
    → ((j : ℕ) → i ≤ j → j < m → covers msr bats addr j ≡ false)
    → bat_lookup n i msr bats addr ≡ some (in_block (bats (m * 2)) (bats (m * 2 + 1)) addr)
unfolding bat_lookup
bat_lookup-first zero i m msr bats addr h k e f = absurd (omega arith)
bat_lookup-first (suc n) i m msr bats addr h k e f = elim (dec_lt i m) [
  | yes l ↦ rw (f i (omega arith) l) (
      bat_lookup-first n (i + 1) m msr bats addr (omega arith) (omega arith) e
        (λ j p q. f j (omega arith) q))
  | no l ↦ let same : i ≡ m = omega (arith, l) in rw same (rw e refl)
]

in_block-parts :
    (u l addr : ℕ)
    → let p = 2 ^ block_bits u in
      (in_block u l addr / p ≡ block_number l / p) × (in_block u l addr % p ≡ addr % p)
in_block-parts u l addr =
    let pos : 0 < 2 ^ block_bits u = one-le-pow (block_bits u) 2 (omega arith) in
    block_parts (2 ^ block_bits u) (block_number l / 2 ^ block_bits u) (addr % 2 ^ block_bits u) pos
      (mod-lt addr pos)

module _ ⦃bus : BusInterface⦄ where
  -- With translation on, the first of the four pairs of block address registers that is valid and
  -- covers an address decides, whatever the page table holds: the address goes to the block of the
  -- lower register, with its place in the block kept.
  pub translate-block :
      (is_data : Bool) (r : PpcRegs) (addr i : ℕ) (b : bus.State)
      → translates is_data r ≡ true
      → i < 4
      → covers r.msr (bats_of is_data r) addr i ≡ true
      → ((j : ℕ) → 0 ≤ j → j < i → covers r.msr (bats_of is_data r) addr j ≡ false)
      → let u = bats_of is_data r (i * 2) in
        let l = bats_of is_data r (i * 2 + 1) in
        let size = 2 ^ block_bits u in
        (phys : ℕ) × (translate is_data r addr b ≡ ok phys)
        × (phys / size ≡ block_number l / size)
        × (phys % size ≡ addr % size)
  unfolding translate
  translate-block is_data r addr i b h hi e f =
      let u = bats_of is_data r (i * 2) in
      let l = bats_of is_data r (i * 2 + 1) in
      let parts = in_block-parts u l addr in
      (
        in_block u l addr,
        rw h (
            rw
              (bat_lookup-first 4 0 i r.msr (bats_of is_data r) addr (omega arith) (omega arith) e
                f)
              refl),
        parts.0,
        parts.1,
      )
