-- ===== src/Bus/Lanes.antt =====
-- The byte lanes of the ColdFire's I/O registers, big-endian.
use monte_lauro_ml_cd32_ppc.Base.{
  ℕ, ◌*◌, ◌/◌, ◌%◌, ◌^◌, ◌<◌, some, if◌then◌else◌, ltb, ◌≡◌, ◌≢◌, ap, ◌∙◌, arith, put_bits, inl,
  inr, mod_four_cases, ◌⊎◌, sym,
}
use monte_lauro_ml_cd32_ppc.Base.Run.{value}
use monte_lauro_ml_cd32_ppc.Memory.{region, cold_fire_io}
use monte_lauro_ml_cd32_ppc.Bus.{Bus, ColdFireIo, read32, write32}
use monte_lauro_ml_cd32_ppc.Bus.Access.{
  read_byte, read_byte_in, write_byte, write_byte_in, byte_shift,
}

-- a write of a register, read back
read32-write32 :
    (off off' val : ℕ) (io : ColdFireIo)
    → off / 4 < 16
    → off' / 4 ≡ off / 4
    → read32 (write32 off val io) off' ≡ val
unfolding read32 write32
read32-write32 off off' val io h e = ground arith

lane_of :
    (addr v x : ℕ) → v < 256 → put_bits (byte_shift addr) 8 v x / 2 ^ byte_shift addr % 256 ≡ v
lane_of addr v x h = elim (mod_four_cases addr) [
  | inl e ↦ rw e (omega arith)
  | inr (inl e) ↦ rw e (omega arith)
  | inr (inr (inl e)) ↦ rw e (omega arith)
  | inr (inr (inr e)) ↦ rw e (omega arith)
]

lane_ne :
    (addr addr' v x : ℕ)
    → v < 256
    → addr % 4 ≢ addr' % 4
    → put_bits (byte_shift addr) 8 v x / 2 ^ byte_shift addr' % 256 ≡ x / 2 ^ byte_shift addr' % 256
lane_ne addr addr' v x h ne = go (mod_four_cases addr) (mod_four_cases addr')
  where
    Four : ℕ → Type 0
    Four a = (a % 4 ≡ 0) ⊎ ((a % 4 ≡ 1) ⊎ ((a % 4 ≡ 2) ⊎ (a % 4 ≡ 3)))

    go :
        Four addr
        → Four addr'
        → put_bits (byte_shift addr) 8 v x / 2 ^ byte_shift addr' % 256
          ≡ x / 2 ^ byte_shift addr' % 256
    go (inl e) (inl f) = absurd (ne (e ∙ sym f))
    go (inl e) (inr (inl f)) = rw (e, f) (omega arith)
    go (inl e) (inr (inr (inl f))) = rw (e, f) (omega arith)
    go (inl e) (inr (inr (inr f))) = rw (e, f) (omega arith)
    go (inr (inl e)) (inl f) = rw (e, f) (omega arith)
    go (inr (inl e)) (inr (inl f)) = absurd (ne (e ∙ sym f))
    go (inr (inl e)) (inr (inr (inl f))) = rw (e, f) (omega arith)
    go (inr (inl e)) (inr (inr (inr f))) = rw (e, f) (omega arith)
    go (inr (inr (inl e))) (inl f) = rw (e, f) (omega arith)
    go (inr (inr (inl e))) (inr (inl f)) = rw (e, f) (omega arith)
    go (inr (inr (inl e))) (inr (inr (inl f))) = absurd (ne (e ∙ sym f))
    go (inr (inr (inl e))) (inr (inr (inr f))) = rw (e, f) (omega arith)
    go (inr (inr (inr e))) (inl f) = rw (e, f) (omega arith)
    go (inr (inr (inr e))) (inr (inl f)) = rw (e, f) (omega arith)
    go (inr (inr (inr e))) (inr (inr (inl f))) = rw (e, f) (omega arith)
    go (inr (inr (inr e))) (inr (inr (inr f))) = absurd (ne (e ∙ sym f))

-- A byte below 256 that the guest writes to the ColdFire's I/O registers is read back from its
-- address, and the other three bytes of the register read as before.
cfio_byte_lanes :
    (addr val : ℕ) (b : Bus)
    → region addr ≡ cold_fire_io
    → val < 256
    → (b' : Bus) × (write_byte addr val b ≡ value (some b'))
      × (read_byte b' addr ≡ some val)
      × ((other : ℕ)
          → region other ≡ cold_fire_io
          → other % 64 / 4 ≡ addr % 64 / 4
          → other % 4 ≢ addr % 4
          → read_byte b' other ≡ read_byte b other)
unfolding write_byte write_byte_in read_byte read_byte_in
cfio_byte_lanes addr val b h l = (
  record b { cfio = write32 off merged b.cfio },
  rw h,
  rw (h, read32-write32 off (addr % 64) merged b.cfio (omega arith) (omega arith))
      (ap some (lane_of addr val (read32 b.cfio off) l)),
  λ other g same ne.
      rw
        (
          g,
          read32-write32 off (other % 64) merged b.cfio (omega arith) (omega arith),
          lane_ne addr other val (read32 b.cfio off) l (λ e. ne (sym e)),
        )
        (ap (λ x. some (x / 2 ^ byte_shift other % 256))
          (same_word b.cfio off (other % 64) (omega arith))),
)
  where
    off : ℕ
    off = addr % 64 / 4 * 4

    merged : ℕ
    merged = put_bits (byte_shift addr) 8 val (read32 b.cfio off)

    same_word :
        (io : ColdFireIo) (off off' : ℕ) → off / 4 ≡ off' / 4 → read32 io off ≡ read32 io off'
    same_word io off off' e = unfold read32 in ap (λ i. if ltb i 16 then io i else 0) e
