-- ===== src/Ppc/Mmu.antt =====
-- src/cpu/ppc603e.rs, `translate`: the block address registers, and then the page table in memory.
use monte_lauro_ml_cd32_ppc.Base.{
  ℕ, zero, suc, ◌+◌, ◌*◌, ◌/◌, ◌%◌, ◌^◌, Bool, true, ◌&&◌, Option, none, some, if◌then◌else◌, leb,
  ◌==◌, bits, test_bit, u16, u32,
}
use Prim.Native.Nat.{bit_and, bit_or, bit_xor}
use monte_lauro_ml_cd32_ppc.Base.Run.{value}
use monte_lauro_ml_cd32_ppc.Base.Exec.{Exit, ok, fault}
use monte_lauro_ml_cd32_ppc.Bus.Interface.{BusInterface}
use monte_lauro_ml_cd32_ppc.Ppc.{PpcRegs, PpcError, page_fault, not32, Ppc}

-- `x & 0xFFFE_0000`
abbrev pub block_number : ℕ → ℕ
block_number x = x / 2 ^ 17 * 2 ^ 17

-- the bits of an address inside a block; a block of 32 bits or more is the whole space
abbrev pub block_bits : ℕ → ℕ
block_bits u = let n = bits 12 5 u + 17 in if leb 32 n then 32 else n

-- `valid`: Vs for a supervisor, Vp for a user
abbrev pub bat_valid : ℕ → ℕ → Bool
bat_valid msr u = if test_bit 19 msr then test_bit 0 u else test_bit 1 u

-- `(addr ^ bepi) & mask == 0`: the same block
abbrev pub same_block : ℕ → ℕ → Bool
same_block u addr = addr / 2 ^ block_bits u == block_number u / 2 ^ block_bits u

-- `(addr & !mask) | (brpn & mask)`
abbrev pub in_block : ℕ → ℕ → ℕ → ℕ
in_block u l addr = block_number l / 2 ^ block_bits u * 2 ^ block_bits u + addr % 2 ^ block_bits u

-- The loop over the pairs of registers from number `i` on, with `n` left.
unfoldable pub bat_lookup : ℕ → ℕ → ℕ → (ℕ → ℕ) → ℕ → Option ℕ
bat_lookup zero i msr bats addr = none
bat_lookup (suc n) i msr bats addr =
    let u = bats (i * 2) in
    let l = bats (i * 2 + 1) in
    if bat_valid msr u && same_block u addr
    then some (in_block u l addr)
    else bat_lookup n (i + 1) msr bats addr

-- the entry that is looked for: `vsid`, the hash bit and the `api` of the address
abbrev pub pte_matches : ℕ → ℕ → ℕ → ℕ → Bool
pte_matches vsid hbit api pte0 =
    (bits 7 24 pte0 == vsid && bits 6 1 pte0 == hbit) && bits 0 6 pte0 == api

-- `api`: the high 6 bits of the page index
abbrev pub api_of : ℕ → ℕ
api_of addr = bits 12 16 addr / 2 ^ 10

module _ ⦃bus : BusInterface⦄ where
  -- `rpn | offset`, or the fault of the read
  abbrev page_address : ℕ → Option ℕ → Exit PpcError ℕ
  page_address addr none = fault (page_fault addr)
  page_address addr (some pte1) = ok (bits 12 20 pte1 * 2 ^ 12 + addr % 2 ^ 12)

  -- One entry of the table: `none` is `continue`.
  abbrev pub pte_result : ℕ → ℕ → ℕ → ℕ → bus.State → Option ℕ → Option (Exit PpcError ℕ)
  pte_result addr vsid hbit pte_addr b none = some (fault (page_fault addr))
  pte_result addr vsid hbit pte_addr b (some pte0) =
      if test_bit 0 pte0 && pte_matches vsid hbit (api_of addr) pte0
      then some (page_address addr (bus.read_word b (pte_addr + 4)))
      else none

  abbrev pub or_else :
      Option (Exit PpcError ℕ) → Option (Exit PpcError ℕ) → Option (Exit PpcError ℕ)
  or_else none rest = rest
  or_else (some e) rest = some e

  -- the loop over a group of entries, from `pte_addr` on, with `n` left
  unfoldable pub search_group : ℕ → ℕ → ℕ → ℕ → ℕ → bus.State → Option (Exit PpcError ℕ)
  search_group zero addr vsid hbit pte_addr b = none
  search_group (suc n) addr vsid hbit pte_addr b =
      or_else (pte_result addr vsid hbit pte_addr b (bus.read_word b pte_addr))
        (search_group n addr vsid hbit (pte_addr + 8) b)

  -- `htabs | ((hash & hmask) << 6)`
  unfoldable pub group_addr : ℕ → ℕ → ℕ
  group_addr sdr1 hash =
      let hmask = u16 (bit_or (sdr1 % 2 ^ 16) 0xFFFF) in
      bit_or (sdr1 / 2 ^ 16 * 2 ^ 16) (u32 (bit_and hash hmask * 2 ^ 6))

  abbrev pub or_page_fault : ℕ → Option (Exit PpcError ℕ) → Exit PpcError ℕ
  or_page_fault addr none = fault (page_fault addr)
  or_page_fault addr (some e) = e

  -- the page table: a group for each of the two hashes
  unfoldable pub walk_table : PpcRegs → ℕ → bus.State → Exit PpcError ℕ
  walk_table r addr b =
      let vsid = r.sr (bits 28 4 addr) % 2 ^ 24 in
      let hash1 = bit_xor vsid (bits 12 16 addr) in
      if r.sdr1 == 0
      then fault (page_fault addr)
      else or_page_fault addr (
          or_else (search_group 8 addr vsid 0 (group_addr r.sdr1 hash1) b)
            (search_group 8 addr vsid 1 (group_addr r.sdr1 (not32 hash1)) b))

  abbrev translate_miss : PpcRegs → ℕ → bus.State → Option ℕ → Exit PpcError ℕ
  translate_miss r addr b (some phys) = ok phys
  translate_miss r addr b none = walk_table r addr b

  -- MSR[DR] or MSR[IR]
  abbrev pub translates : Bool → PpcRegs → Bool
  translates is_data r = if is_data then test_bit 9 r.msr else test_bit 8 r.msr

  abbrev pub bats_of : Bool → PpcRegs → ℕ → ℕ
  bats_of is_data r = if is_data then r.dbat else r.ibat

  unfoldable pub translate : Bool → PpcRegs → ℕ → bus.State → Exit PpcError ℕ
  translate is_data r addr b =
      if translates is_data r
      then translate_miss r addr b (bat_lookup 4 0 r.msr (bats_of is_data r) addr)
      else ok addr

  -- `self.translate(is_data, addr, bus)?`
  unfoldable pub translated : Bool → ℕ → Ppc ℕ
  translated is_data addr s = value (s, translate is_data s.0.regs addr s.1)

  unfoldable pub data_translate : ℕ → Ppc ℕ
  unfolding translated
  data_translate addr = translated true addr
