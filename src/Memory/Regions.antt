-- ===== src/Memory/Regions.antt =====
-- The address map as ranges, and the places that the accessors reach.
use monte_lauro_ml_cd32_ppc.Base.{
  ℕ, ◌≤◌, ◌<◌, ◌≡◌, ◌≢◌, ◌⊎◌, ◌↔◌, arith, inl, inr, List, [], ◌∷◌, sym, Bool-cases,
}
use monte_lauro_ml_cd32_ppc.Memory.{
  MemRegion, unified_ram, system_ram, chip_ram, cold_fire_local, vram, boot_rom, mailbox, reserved,
  region, Range, match_range, region_table, in_range, mailbox_base, mailbox_end,
}

-- The addresses of the three memories, apart from the mailbox that covers 16 bytes of the first.
abbrev pub InUnified : ℕ → Type 0
InUnified a = (a < 0x0100_0000) ⊎ ((0x0100_0010 ≤ a) × (a < 0x01C0_0000))

abbrev pub InLocal : ℕ → Type 0
InLocal a = (0x0200_0000 ≤ a) × (a < 0x0220_0000)

abbrev pub InRom : ℕ → Type 0
InRom a = (0xFF00_0000 ≤ a) × (a < 0xFF08_0000)

-- The arm that was taken: it leads to `r` and holds the address.
abbrev Taken : List Range → ℕ → MemRegion → Type 0
Taken [] a r = r ≡ reserved
Taken (t ∷ ts) a r = ((t.target ≡ r) × (t.lo ≤ a) × (a ≤ t.hi)) ⊎ Taken ts a r

match_range-Taken : (ts : List Range) (a : ℕ) (r : MemRegion) → match_range ts a ≡ r → Taken ts a r
unfolding match_range
match_range-Taken [] a r h = sym h
match_range-Taken (t ∷ ts) a r h = elim (Bool-cases (in_range t.lo t.hi a)) [
  | inl e ↦ inl (rw e at h, ground arith, ground arith)
  | inr e ↦ inr (match_range-Taken ts a r (rw e at h))
]

-- Outside of the mailbox the table decides.
region-Taken :
    (a : ℕ) (r : MemRegion)
    → region a ≡ r
    → ((r ≡ mailbox) × (0x0100_0000 ≤ a) × (a < 0x0100_0010))
      ⊎ (((a < 0x0100_0000) ⊎ (0x0100_0010 ≤ a)) × Taken region_table a r)
unfolding region
region-Taken a r h = elim (Bool-cases (in_range mailbox_base mailbox_end a)) [
  | inl e ↦ inl (sym (rw e at h), ground arith, ground arith)
  | inr e ↦ inr (ground arith, match_range-Taken region_table a r (rw e at h))
]

pub region-unified_ram : (a : ℕ) → (region a ≡ unified_ram) ↔ InUnified a
region-unified_ram a =
    (λ h. ground (arith, region-Taken a unified_ram h), unfold region in λ h. ground arith)

pub region-cold_fire_local : (a : ℕ) → (region a ≡ cold_fire_local) ↔ InLocal a
region-cold_fire_local a =
    (λ h. ground (arith, region-Taken a cold_fire_local h), unfold region in λ h. ground arith)

pub region-boot_rom : (a : ℕ) → (region a ≡ boot_rom) ↔ InRom a
region-boot_rom a =
    (λ h. ground (arith, region-Taken a boot_rom h), unfold region in λ h. ground arith)

-- No address lies in one of the three regions that are aliases of the unified RAM.
pub region-ne-alias : (a : ℕ) → (region a ≢ vram) × (region a ≢ system_ram) × (region a ≢ chip_ram)
region-ne-alias a = (
  λ h. ground (arith, region-Taken a vram h),
  λ h. ground (arith, region-Taken a system_ram h),
  λ h. ground (arith, region-Taken a chip_ram h),
)
