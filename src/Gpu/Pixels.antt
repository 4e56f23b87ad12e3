-- ===== src/Gpu/Pixels.antt =====
-- src/gpu/tbdr.rs: what the commands CLEAR, RECT and LINE write. A colour is the word that is
-- written with its high byte first.
pub mod LineEnds
use monte_lauro_ml_cd32_ppc.Base.{
  ℕ, zero, suc, ◌+◌, ◌-◌, ◌*◌, ◌/◌, ◌%◌, ◌^◌, Bool, true, false, List, [], ◌∷◌, if◌then◌else◌, ltb,
  leb, ◌==◌, ◌&&◌, ◌||◌, Bytes, byte_of, write_cells,
}
use monte_lauro_ml_cd32_ppc.Base.Int.{
  ℤ, pos, negsuc, pos_part, neg_part, sub_ℕ, ◌+ℤ◌, ◌-ℤ◌, ltb_ℤ, leb_ℤ, eq_ℤ,
}
use monte_lauro_ml_cd32_ppc.Base.Run.{Run, value, panic, out_of_fuel}
use monte_lauro_ml_cd32_ppc.Gpu.{fb_width, fb_height}

-- `color.to_be_bytes()`
abbrev color_bytes : ℕ → List ℕ
color_bytes c = byte_of 3 c ∷ byte_of 2 c ∷ byte_of 1 c ∷ byte_of 0 c ∷ []

-- `data | 0xFF000000`
abbrev pub opaque_color : ℕ → ℕ
opaque_color c = 0xFF00_0000 + c % 2 ^ 24

-- `vram[px..px + 4].copy_from_slice(..)`, for a range that is inside
abbrev pub put_pixel : ℕ → ℕ → Bytes → Bytes
put_pixel px color v = record v { cell = write_cells v.cell px (color_bytes color) }

-- CLEAR: `n` whole chunks of four bytes, from offset `i` on
unfoldable pub clear_from : ℕ → ℕ → ℕ → Bytes → Bytes
clear_from zero i color v = v
clear_from (suc n) i color v = clear_from n (i + 4) color (put_pixel i color v)

unfoldable pub clear : ℕ → Bytes → Bytes
clear color v = clear_from (v.len / 4) 0 color v

-- the byte offset of a pixel
abbrev pub offset_of : ℕ → ℕ → ℕ
offset_of col row = (row * fb_width + col) * 4

-- The guarded write of RECT and LINE: out of the screen, or of the memory, nothing is written.
unfoldable pub plot : ℕ → ℕ → ℕ → Bytes → Bytes
plot col row color v =
    if ltb row fb_height && (ltb col fb_width && leb (offset_of col row + 4) v.len)
    then put_pixel (offset_of col row) color v
    else v

unfoldable pub rect_row : ℕ → ℕ → ℕ → ℕ → Bytes → Bytes
rect_row zero col row color v = v
rect_row (suc n) col row color v = rect_row n (col + 1) row color (plot col row color v)

unfoldable pub rect_rows : ℕ → ℕ → ℕ → ℕ → ℕ → Bytes → Bytes
rect_rows zero w col row color v = v
rect_rows (suc h) w col row color v = rect_rows h w col (row + 1) color (rect_row w col row color v)

-- RECT. The shift and mask of the width are those of `x`.
unfoldable pub rect : ℕ → ℕ → Bytes → Bytes
rect flags color v =
    let x = flags / 2 ^ 10 % 64 * 10 in
    let y = flags / 2 ^ 5 % 32 * 10 in
    let w = flags / 2 ^ 10 % 64 * 10 in let h = flags % 32 * 10 in rect_rows h w x y color v

-- `plot` at signed coordinates
abbrev plot_at : ℤ → ℤ → ℕ → Bytes → Bytes
plot_at (pos col) (pos row) color v = plot col row color v
plot_at (pos col) (negsuc row) color v = v
plot_at (negsuc col) row color v = v

-- What the loop of LINE does not change. Coordinates are below 2^16 in magnitude, so no `i32`
-- operation of the loop wraps.
pub record Line : Type 0 where
  pub x1 : ℤ
  pub y1 : ℤ
  pub dx : ℕ
  pub dy : ℕ
  pub right : Bool  -- `sx` is 1
  pub down : Bool  -- `sy` is 1

-- `c += s`
abbrev step_by : Bool → ℤ → ℤ
step_by true c = c +ℤ pos 1
step_by false c = c -ℤ pos 1

-- `e2 > -dy` and `e2 < dx`
abbrev steps_x : Line → ℤ → Bool
steps_x l e2 = ltb_ℤ (sub_ℕ 0 l.dy) e2

abbrev steps_y : Line → ℤ → Bool
steps_y l e2 = ltb_ℤ e2 (pos l.dx)

abbrev next_err : Line → ℤ → ℤ
next_err l err =
    let e2 = err +ℤ err in
    let e = if steps_x l e2 then err -ℤ pos l.dy else err in
    if steps_y l e2 then e +ℤ pos l.dx else e

unfoldable pub line_loop : ℕ → Line → ℤ → ℤ → ℤ → Bytes → Run Bytes
line_loop zero l cx cy err v = out_of_fuel
line_loop (suc fuel) l cx cy err v =
    let e2 = err +ℤ err in
    let v' = plot_at cx cy 0xFFFF_FFFF v in
    let rest =
      line_loop fuel l (if steps_x l e2 then step_by l.right cx else cx)
        (if steps_y l e2 then step_by l.down cy else cy) (next_err l err) v' in
    if eq_ℤ cx l.x1 && eq_ℤ cy l.y1 then value v' else rest

-- `if a > b { a - b } else { b - a }`
abbrev distance : ℤ → ℤ → ℕ
distance a b =
    if ltb_ℤ b a
    then pos_part a + neg_part b - (pos_part b + neg_part a)
    else pos_part b + neg_part a - (pos_part a + neg_part b)

-- The line from `x0`, `y0` to `x1`, `y1`. It takes at most `dx + dy` steps.
unfoldable pub line : ℤ → ℤ → ℤ → ℤ → Bytes → Run Bytes
line x0 y0 x1 y1 v =
    let dx = distance x1 x0 in
    let dy = distance y1 y0 in
    line_loop (suc (dx + dy))
      (record { x1 = x1; y1 = y1; dx = dx; dy = dy; right = ltb_ℤ x0 x1; down = ltb_ℤ y0 y1 }) x0 y0
      (sub_ℕ dx dy) v
