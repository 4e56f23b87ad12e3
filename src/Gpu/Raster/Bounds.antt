-- ===== src/Gpu/Raster/Bounds.antt =====
-- When the rasteriser stays inside the memory, and when it panics.
use monte_lauro_ml_cd32_ppc.Base.{
  ℕ, zero, suc, ◌+◌, ◌*◌, ◌≤◌, ◌<◌, true, leb, Bytes, ◌≡◌, ◌≢◌, refl, sym, arith, ap, ◌∙◌,
  Bool-cases, inl, inr, ◌⊎◌, lt→leb,
}
use monte_lauro_ml_cd32_ppc.Base.Run.{Run, value, panic, out_of_fuel, ◌>>=◌}
use monte_lauro_ml_cd32_ppc.Gpu.Pixels.{put_pixel, offset_of, opaque_color}
use monte_lauro_ml_cd32_ppc.Gpu.Raster.{
  Triangle, hit, shade, shade_row, shade_rows, raster_tri, count_to, min_x, min_y, max_x, max_y,
}

-- What a part of the rasteriser may come to: a panic, or a memory of the same length.
data Ends (v : Bytes) (r : Run Bytes) : Type 0 where
  broken : r ≡ panic → Ends v r
  whole : (v' : Bytes) → r ≡ value v' → v'.len ≡ v.len → Ends v r

-- a part and the rest
then_Ends :
    (v : Bytes) (r : Run Bytes) (k : Bytes → Run Bytes)
    → Ends v r
    → ((v' : Bytes) → Ends v' (k v'))
    → Ends v (r >>= k)
then_Ends v r k (broken e) h = broken (ap (λ x. x >>= k) e)
then_Ends v r k (whole v' e l) h = after (h v')
  where
    after : Ends v' (k v') → Ends v (r >>= k)
    after (broken f) = broken (ap (λ x. x >>= k) e ∙ f)
    after (whole w f m) = whole w (ap (λ x. x >>= k) e ∙ f) (m ∙ l)

module _ (t : Triangle) (color : ℕ) where
  shade-Ends : (col row : ℕ) (v : Bytes) → Ends v (shade t color col row v)
  unfolding shade
  shade-Ends col row v = elim (Bool-cases (hit t col row)) [
    | inr e ↦ whole v (rw e) refl
    | inl e ↦ elim (Bool-cases (leb (offset_of col row + 4) v.len)) [
      | inl f ↦ whole (put_pixel (offset_of col row) color v) (rw (e, f)) refl
      | inr f ↦ broken (rw (e, f))
    ]
  ]

  shade_row-Ends : (n col row : ℕ) (v : Bytes) → Ends v (shade_row n t color col row v)
  unfolding shade_row
  shade_row-Ends zero col row v = whole v refl refl
  shade_row-Ends (suc n) col row v =
      then_Ends v (shade t color col row v) _ (shade-Ends col row v)
        (shade_row-Ends n (col + 1) row)

  shade_rows-Ends : (h w col row : ℕ) (v : Bytes) → Ends v (shade_rows h w t color col row v)
  unfolding shade_rows
  shade_rows-Ends zero w col row v = whole v refl refl
  shade_rows-Ends (suc h) w col row v =
      then_Ends v (shade_row w t color col row v) _ (shade_row-Ends w col row v)
        (shade_rows-Ends h w col (row + 1))

  shade-panics :
      (i j : ℕ) (v : Bytes)
      → hit t i j ≡ true
      → v.len < offset_of i j + 4
      → shade t color i j v ≡ panic
  unfolding shade
  shade-panics i j v h l = rw (h, lt→leb (offset_of i j + 4) v.len l)

  then_panics :
      (v : Bytes) (r : Run Bytes) (k : Bytes → Run Bytes)
      → Ends v r
      → ((v' : Bytes) → v'.len ≡ v.len → k v' ≡ panic)
      → (r >>= k) ≡ panic
  then_panics v r k (broken e) h = ap (λ x. x >>= k) e
  then_panics v r k (whole v' e l) h = ap (λ x. x >>= k) e ∙ h v' l

  split_at : (i col : ℕ) → col ≤ i → (i ≡ col) ⊎ (col + 1 ≤ i)
  split_at i col h = ground arith

  shade_row-panics :
      (n col i j : ℕ) (v : Bytes)
      → col ≤ i
      → i < col + n
      → hit t i j ≡ true
      → v.len < offset_of i j + 4
      → shade_row n t color col j v ≡ panic
  unfolding shade_row
  shade_row-panics zero col i j v a b h l = absurd (omega arith)
  shade_row-panics (suc n) col i j v a b h l = elim (split_at i col a) [
    | inl e ↦
        ap (λ c. shade t color c j v >>= λ v'. shade_row n t color (col + 1) j v') (sym e)
        ∙ ap (λ x. x >>= λ v'. shade_row n t color (col + 1) j v') (shade-panics i j v h l)
    | inr g ↦
        then_panics v (shade t color col j v) _ (shade-Ends col j v)
          (λ v' m. shade_row-panics n (col + 1) i j v' g (omega arith) h (omega arith))
  ]

  shade_rows-panics :
      (n w col row i j : ℕ) (v : Bytes)
      → row ≤ j
      → j < row + n
      → col ≤ i
      → i < col + w
      → hit t i j ≡ true
      → v.len < offset_of i j + 4
      → shade_rows n w t color col row v ≡ panic
  unfolding shade_rows
  shade_rows-panics zero w col row i j v c d a b h l = absurd (omega arith)
  shade_rows-panics (suc n) w col row i j v c d a b h l = elim (split_at j row c) [
    | inl e ↦
        ap (λ r. shade_row w t color col r v >>= λ v'. shade_rows n w t color col (row + 1) v')
          (sym e)
        ∙ ap (λ x. x >>= λ v'. shade_rows n w t color col (row + 1) v')
            (shade_row-panics w col i j v a b h l)
    | inr g ↦
        then_panics v (shade_row w t color col row v) _ (shade_row-Ends w col row v)
          (λ v' m. shade_rows-panics n w col (row + 1) i j v' g (omega arith) a b h (omega arith))
  ]

-- A triangle that covers a pixel of its bounding box on the screen panics, if the memory ends
-- before the four bytes of that pixel do.
pub raster_tri-panics :
    (t : Triangle) (color i j : ℕ) (v : Bytes)
    → min_x t ≤ i
    → i < min_x t + count_to (min_x t) (max_x t)
    → min_y t ≤ j
    → j < min_y t + count_to (min_y t) (max_y t)
    → hit t i j ≡ true
    → v.len < (j * 640 + i) * 4 + 4
    → raster_tri t color v ≡ panic
unfolding raster_tri
raster_tri-panics t color i j v a b c d h l =
    shade_rows-panics t (opaque_color color) (count_to (min_y t) (max_y t))
      (count_to (min_x t) (max_x t)) (min_x t) (min_y t) i j v c d a b h l

-- The rasteriser's loops are counted, so it always ends.
pub raster_tri-ends : (t : Triangle) (color : ℕ) (v : Bytes) → raster_tri t color v ≢ out_of_fuel
unfolding raster_tri
raster_tri-ends t color v h = go (
    shade_rows-Ends t (opaque_color color) (count_to (min_y t) (max_y t))
      (count_to (min_x t) (max_x t)) (min_x t) (min_y t) v)
  where
    go : Ends v (raster_tri t color v) → ⊥
    go (broken e) = cc
    go (whole v' e l) = cc
