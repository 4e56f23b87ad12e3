-- ===== src/Gpu/Lists/Ends.antt =====
-- Every display list ends.
use monte_lauro_ml_cd32_ppc.Base.{
  ℕ, zero, suc, ◌+◌, ◌*◌, ◌/◌, ◌≤◌, ◌<◌, ltb, ◌==◌, Bytes, ◌≢◌, refl, arith, Bool-cases, inl, inr,
  ltb→le,
}
use monte_lauro_ml_cd32_ppc.Base.Run.{Run, value, panic, out_of_fuel, ◌>>=◌}
use monte_lauro_ml_cd32_ppc.Gpu.Pixels.LineEnds.{line-ends}
use monte_lauro_ml_cd32_ppc.Gpu.Raster.Bounds.{raster_tri-ends}
use monte_lauro_ml_cd32_ppc.Gpu.Lists.{tri_color, tri, exec, exec_from, exec_dl, read_u16, read_u32}

then_ends :
    {A : Type 0} (r : Run A) (k : A → Run Bytes)
    → r ≢ out_of_fuel
    → ((a : A) → k a ≢ out_of_fuel)
    → (r >>= k) ≢ out_of_fuel
then_ends (value a) k p q h = q a h
then_ends panic k p q h = cc
then_ends out_of_fuel k p q h = p refl

tri_color-ends : (cmd : Bytes) (ptr : ℕ) → tri_color cmd ptr ≢ out_of_fuel
unfolding tri_color
tri_color-ends cmd ptr h = ground arith

exec-ends : (cmd : Bytes) (op flags word : ℕ) (v : Bytes) → exec cmd op flags word v ≢ out_of_fuel
unfolding exec tri
exec-ends cmd op flags word v = elim (Bool-cases (op == 0x0001)) [
  | inl a ↦ rw a (λ h. cc)
  | inr a ↦ elim (Bool-cases (op == 0x0002)) [
    | inl b ↦ rw (a, b) (λ h. cc)
    | inr b ↦ elim (Bool-cases (op == 0x0003)) [
      | inl c ↦
          rw (a, b, c)
            (then_ends (tri_color cmd word) _ (tri_color-ends cmd word)
              (λ color. raster_tri-ends _ color v))
      | inr c ↦ elim (Bool-cases (op == 0x0004)) [
        | inl d ↦ rw (a, b, c, d) (line-ends _ _ _ _ v)
        | inr d ↦ rw (a, b, c, d) (λ h. cc)
      ]
    ]
  ]
]

exec_from-ends :
    (fuel : ℕ) (cmd : Bytes) (off : ℕ) (v : Bytes)
    → off ≤ cmd.len
    → cmd.len < off + 8 * fuel
    → exec_from fuel cmd off v ≢ out_of_fuel
unfolding exec_from
exec_from-ends zero cmd off v g h = absurd (omega arith)
exec_from-ends (suc fuel) cmd off v g h = elim (Bool-cases (ltb cmd.len (off + 8))) [
  | inl a ↦ rw a (λ e. cc)
  | inr a ↦ elim (Bool-cases (read_u16 cmd off == 0xFFFF)) [
    | inl b ↦ rw (a, b) (λ e. cc)
    | inr b ↦
        rw (a, b)
          (then_ends
            (exec cmd (read_u16 cmd off) (read_u16 cmd (off + 2)) (read_u32 cmd (off + 4)) v) _
            (exec-ends cmd _ _ _ v)
            (λ v'. exec_from-ends fuel cmd (off + 8) v' (ltb→le _ _ a) (omega arith)))
  ]
]

-- The execution of a display list ends, in a memory or in a panic, whatever the list holds, lines
-- included.
pub exec_dl-ends : (cmd v : Bytes) → exec_dl cmd v ≢ out_of_fuel
unfolding exec_dl
exec_dl-ends cmd v = exec_from-ends (suc (cmd.len / 8)) cmd 0 v (omega arith) (omega arith)
