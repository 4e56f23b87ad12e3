-- ===== src/Gpu/Raster.antt =====
-- src/gpu/tbdr.rs, `raster_tri`: a filled triangle. Products and differences are `i32`s that wrap.
-- The write of a pixel is not guarded: past the end of the memory it panics.
pub mod Bounds
use monte_lauro_ml_cd32_ppc.Base.{
  ℕ, zero, suc, ◌+◌, ◌-◌, ◌*◌, ◌/◌, ◌%◌, ◌^◌, ◌≤◌, ◌<◌, Bool, true, false, if◌then◌else◌, ltb, leb,
  ◌==◌, ◌&&◌, Bytes, ◌≡◌, ◌≢◌, refl, arith, ap, ◌∙◌, Bool-cases, inl, inr, ◌⊎◌, lt→leb, le→leb,
}
use monte_lauro_ml_cd32_ppc.Base.Int.{
  ℤ, pos, negsuc, pos_part, neg_part, sub_ℕ, ◌+ℤ◌, ◌-ℤ◌, ◌*ℤ◌, leb_ℤ, min_ℤ, max_ℤ, i32,
}
use monte_lauro_ml_cd32_ppc.Base.Run.{Run, value, panic, out_of_fuel, ◌>>=◌}
use monte_lauro_ml_cd32_ppc.Gpu.{fb_width, fb_height}
use monte_lauro_ml_cd32_ppc.Gpu.Pixels.{put_pixel, offset_of, opaque_color}

pub record Vertex : Type 0 where
  pub x : ℤ
  pub y : ℤ

pub record Triangle : Type 0 where
  pub a : Vertex
  pub b : Vertex
  pub c : Vertex

-- `(px - ox) * (qy - oy) - (py - oy) * (qx - ox)`, each operation wrapping
unfoldable cross : Vertex → Vertex → Vertex → ℤ
unfolding ◌-ℤ◌ ◌*ℤ◌
cross o p q =
    i32 (i32 (i32 (p.x -ℤ o.x) *ℤ i32 (q.y -ℤ o.y)) -ℤ i32 (i32 (p.y -ℤ o.y) *ℤ i32 (q.x -ℤ o.x)))

-- `sa`
unfoldable area : Triangle → ℤ
unfolding ◌-ℤ◌ ◌*ℤ◌
area t = i32 (
    i32 (i32 (t.b.x -ℤ t.a.x) *ℤ i32 (t.c.y -ℤ t.a.y))
    -ℤ i32 (i32 (t.c.x -ℤ t.a.x) *ℤ i32 (t.b.y -ℤ t.a.y)))

-- whether a pixel is on the inner side of all three edges
unfoldable pub hit : Triangle → ℕ → ℕ → Bool
unfolding cross area
hit t col row =
    let p : Vertex = record { x = pos col; y = pos row } in
    let w0 = cross t.a t.b p in
    let w1 = cross t.b t.c p in
    let w2 = cross t.c t.a p in
    if leb_ℤ (pos 0) (area t)
    then leb_ℤ (pos 0) w0 && (leb_ℤ (pos 0) w1 && leb_ℤ (pos 0) w2)
    else leb_ℤ w0 (pos 0) && (leb_ℤ w1 (pos 0) && leb_ℤ w2 (pos 0))

-- the body of the loops
unfoldable pub shade : Triangle → ℕ → ℕ → ℕ → Bytes → Run Bytes
shade t color col row v =
    if hit t col row
    then if leb (offset_of col row + 4) v.len
      then value (put_pixel (offset_of col row) color v)
      else panic
    else value v

unfoldable pub shade_row : ℕ → Triangle → ℕ → ℕ → ℕ → Bytes → Run Bytes
shade_row zero t color col row v = value v
shade_row (suc n) t color col row v =
    shade t color col row v >>= λ v'. shade_row n t color (col + 1) row v'

unfoldable pub shade_rows : ℕ → ℕ → Triangle → ℕ → ℕ → ℕ → Bytes → Run Bytes
shade_rows zero w t color col row v = value v
shade_rows (suc h) w t color col row v =
    shade_row w t color col row v >>= λ v'. shade_rows h w t color col (row + 1) v'

-- the range `lo..=hi` as its length, for a `lo` that is not negative
abbrev count_to : ℕ → ℤ → ℕ
count_to lo hi = pos_part hi + 1 - lo - neg_part hi

abbrev min_x : Triangle → ℕ
min_x t = pos_part (max_ℤ (min_ℤ (min_ℤ t.a.x t.b.x) t.c.x) (pos 0))

abbrev min_y : Triangle → ℕ
min_y t = pos_part (max_ℤ (min_ℤ (min_ℤ t.a.y t.b.y) t.c.y) (pos 0))

abbrev max_x : Triangle → ℤ
max_x t = min_ℤ (max_ℤ (max_ℤ t.a.x t.b.x) t.c.x) (pos (fb_width - 1))

abbrev max_y : Triangle → ℤ
max_y t = min_ℤ (max_ℤ (max_ℤ t.a.y t.b.y) t.c.y) (pos (fb_height - 1))

unfoldable pub raster_tri : Triangle → ℕ → Bytes → Run Bytes
raster_tri t color v =
    shade_rows (count_to (min_y t) (max_y t)) (count_to (min_x t) (max_x t)) t (opaque_color color)
      (min_x t) (min_y t) v
