-- ===== src/Gpu/Pixels/LineEnds.antt =====
-- The loop of LINE reaches its end point: every round brings one coordinate a step nearer, and
-- none passes it.
use monte_lauro_ml_cd32_ppc.Base.{
  ℕ, zero, suc, ◌+◌, ◌*◌, ◌≤◌, ◌<◌, Bool, true, false, ◌&&◌, Bytes, ◌≡◌, ◌≢◌, refl, arith,
  Bool-cases, inl, inr, ◌⊎◌, lt→ltb, le→ltb, eq→==, ne→==, ltb→le, ltb→lt,
}
use monte_lauro_ml_cd32_ppc.Base.Int.{
  ℤ, pos, pos_part, neg_part, sub_ℕ, ◌+ℤ◌, ◌-ℤ◌, ltb_ℤ, eq_ℤ, +ℤ_parts, -ℤ_parts, sub_ℕ_parts,
}
use native.Mathlib.Nat.{mul_comm}
use monte_lauro_ml_cd32_ppc.Base.Run.{out_of_fuel}
use monte_lauro_ml_cd32_ppc.Gpu.Pixels.{
  Line, line_loop, line, steps_x, steps_y, step_by, distance, plot_at,
}

-- A coordinate has `r` steps to go to its end.
abbrev ToGo : Bool → ℤ → ℤ → ℕ → Type 0
ToGo true c e r = pos_part e + neg_part c ≡ pos_part c + neg_part e + r
ToGo false c e r = pos_part c + neg_part e ≡ pos_part e + neg_part c + r

ToGo-step : (d : Bool) (c e : ℤ) (r : ℕ) → ToGo d c e (suc r) → ToGo d (step_by d c) e r
ToGo-step true c e r h = omega (arith, +ℤ_parts c (pos 1))
ToGo-step false c e r h = omega (arith, -ℤ_parts c (pos 1))

ToGo-zero : (d : Bool) (c e : ℤ) → ToGo d c e 0 → eq_ℤ c e ≡ true
ToGo-zero true c e h = eq→== _ _ (omega arith)
ToGo-zero false c e h = eq→== _ _ (omega arith)

ToGo-suc : (d : Bool) (c e : ℤ) (r : ℕ) → ToGo d c e (suc r) → eq_ℤ c e ≡ false
ToGo-suc true c e r h = ne→== _ _ (omega arith)
ToGo-suc false c e r h = ne→== _ _ (omega arith)

-- the error term with `rx` and `ry` steps to go
abbrev Balanced : Line → ℤ → ℕ → ℕ → Type 0
Balanced l err rx ry = pos_part err + l.dy + ry * l.dx ≡ neg_part err + l.dx + rx * l.dy

module _ (l : Line) (err : ℤ) (rx ry : ℕ) where
  -- only `y` is left
  steps-y_only :
      suc ry ≤ l.dy
      → Balanced l err 0 (suc ry)
      → (steps_x l (err +ℤ err) ≡ false) × (steps_y l (err +ℤ err) ≡ true)
  steps-y_only h b = (
    le→ltb _ _ (omega (arith, +ℤ_parts err err, sub_ℕ_parts 0 l.dy)),
    lt→ltb _ _ (omega (arith, +ℤ_parts err err, sub_ℕ_parts 0 l.dy)),
  )

  steps-x_only :
      suc rx ≤ l.dx
      → Balanced l err (suc rx) 0
      → (steps_x l (err +ℤ err) ≡ true) × (steps_y l (err +ℤ err) ≡ false)
  steps-x_only h b = (
    lt→ltb _ _ (omega (arith, +ℤ_parts err err, sub_ℕ_parts 0 l.dy)),
    le→ltb _ _ (omega (arith, +ℤ_parts err err, sub_ℕ_parts 0 l.dy)),
  )

  -- one of the two steps at least
  steps-some :
      suc rx ≤ l.dx
      → suc ry ≤ l.dy
      → (steps_x l (err +ℤ err) ≡ true)
        ⊎ ((steps_x l (err +ℤ err) ≡ false) × (steps_y l (err +ℤ err) ≡ true))
  steps-some h k = elim (Bool-cases (steps_x l (err +ℤ err))) [
    | inl e ↦ inl e
    | inr e ↦
        inr (e, lt→ltb _ _ (omega (arith, ltb→le _ _ e, +ℤ_parts err err, sub_ℕ_parts 0 l.dy)))
  ]

and_false : (b : Bool) → (b && false) ≡ false
and_false true = refl
and_false false = refl

-- With enough fuel for the steps that are left, the loop returns.
line_loop-ends :
    (fuel : ℕ) (l : Line) (cx cy err : ℤ) (v : Bytes) (rx ry : ℕ)
    → rx + ry < fuel
    → rx ≤ l.dx
    → ry ≤ l.dy
    → ToGo l.right cx l.x1 rx
    → ToGo l.down cy l.y1 ry
    → Balanced l err rx ry
    → line_loop fuel l cx cy err v ≢ out_of_fuel
unfolding line_loop
line_loop-ends zero l cx cy err v rx ry f a b p q e = absurd (omega arith)
line_loop-ends (suc fuel) l cx cy err v zero zero f a b p q e =
    rw (ToGo-zero l.right cx l.x1 p, ToGo-zero l.down cy l.y1 q) (λ h. cc)
line_loop-ends (suc fuel) l cx cy err v zero (suc ry) f a b p q e =
    let (nx, ny) = steps-y_only l err 0 ry b e in
    rw (ToGo-suc l.down cy l.y1 ry q, and_false (eq_ℤ cx l.x1), nx, ny)
      (line_loop-ends fuel l cx (step_by l.down cy) (err +ℤ pos l.dx) (plot_at cx cy 0xFFFF_FFFF v)
        zero ry (omega arith) a (omega arith) p (ToGo-step l.down cy l.y1 ry q)
        (omega (arith, +ℤ_parts err (pos l.dx))))
line_loop-ends (suc fuel) l cx cy err v (suc rx) zero f a b p q e =
    let (nx, ny) = steps-x_only l err rx 0 a e in
    rw (ToGo-suc l.right cx l.x1 rx p, nx, ny)
      (line_loop-ends fuel l (step_by l.right cx) cy (err -ℤ pos l.dy) (plot_at cx cy 0xFFFF_FFFF v)
        rx zero (omega arith) (omega arith) b (ToGo-step l.right cx l.x1 rx p) q
        (omega (arith, -ℤ_parts err (pos l.dy))))
line_loop-ends (suc fuel) l cx cy err v (suc rx) (suc ry) f a b p q e =
    elim (steps-some l err rx ry a b) [
      | inr (nx, ny) ↦
          rw (ToGo-suc l.right cx l.x1 rx p, nx, ny)
            (line_loop-ends fuel l cx (step_by l.down cy) (err +ℤ pos l.dx)
              (plot_at cx cy 0xFFFF_FFFF v) (suc rx) ry (omega arith) a (omega arith) p
              (ToGo-step l.down cy l.y1 ry q) (omega (arith, +ℤ_parts err (pos l.dx))))
      | inl nx ↦ elim (Bool-cases (steps_y l (err +ℤ err))) [
        | inl ny ↦
            rw (ToGo-suc l.right cx l.x1 rx p, nx, ny)
              (line_loop-ends fuel l (step_by l.right cx) (step_by l.down cy)
                (err -ℤ pos l.dy +ℤ pos l.dx) (plot_at cx cy 0xFFFF_FFFF v) rx ry (omega arith)
                (omega arith) (omega arith) (ToGo-step l.right cx l.x1 rx p)
                (ToGo-step l.down cy l.y1 ry q)
                (omega (arith, -ℤ_parts err (pos l.dy), +ℤ_parts (err -ℤ pos l.dy) (pos l.dx))))
        | inr ny ↦
            rw (ToGo-suc l.right cx l.x1 rx p, nx, ny)
              (line_loop-ends fuel l (step_by l.right cx) cy (err -ℤ pos l.dy)
                (plot_at cx cy 0xFFFF_FFFF v) rx (suc ry) (omega arith) (omega arith) b
                (ToGo-step l.right cx l.x1 rx p) q (omega (arith, -ℤ_parts err (pos l.dy))))
      ]
    ]

distance-ToGo : (c e : ℤ) → ToGo (ltb_ℤ c e) c e (distance e c)
distance-ToGo c e = elim (Bool-cases (ltb_ℤ c e)) [
  | inl h ↦ rw h (omega (arith, ltb→lt _ _ h))
  | inr h ↦ rw h (omega (arith, ltb→le _ _ h))
]

-- LINE draws from any point to any other in at most as many rounds as the two distances make up,
-- and one: the loop of the source ends.
pub line-ends : (x0 y0 x1 y1 : ℤ) (v : Bytes) → line x0 y0 x1 y1 v ≢ out_of_fuel
unfolding line
line-ends x0 y0 x1 y1 v =
    let l : Line = record {
      x1 = x1;
      y1 = y1;
      dx = distance x1 x0;
      dy = distance y1 y0;
      right = ltb_ℤ x0 x1;
      down = ltb_ℤ y0 y1;
    } in
    line_loop-ends (suc (distance x1 x0 + distance y1 y0)) l x0 y0
      (sub_ℕ (distance x1 x0) (distance y1 y0)) v (distance x1 x0) (distance y1 y0) (omega arith)
      (omega arith) (omega arith) (distance-ToGo x0 x1) (distance-ToGo y0 y1)
      (omega (
        arith,
        sub_ℕ_parts (distance x1 x0) (distance y1 y0),
        mul_comm (distance x1 x0) (distance y1 y0),
      ))
