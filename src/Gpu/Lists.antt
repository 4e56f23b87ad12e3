-- ===== src/Gpu/Lists.antt =====
-- src/gpu/tbdr.rs, `exec_dl`: the display list. The loop takes fuel; every command is 8 bytes
-- long, so an eighth of the length of the list is enough.
pub mod Ends
use monte_lauro_ml_cd32_ppc.Base.{
  ℕ, zero, suc, ◌+◌, ◌-◌, ◌*◌, ◌/◌, ◌%◌, ◌^◌, Bool, true, false, if◌then◌else◌, ltb, leb, ◌==◌,
  Bytes, be16, be32,
}
use monte_lauro_ml_cd32_ppc.Base.Int.{ℤ, pos, signed}
use monte_lauro_ml_cd32_ppc.Base.Run.{Run, value, panic, out_of_fuel, ◌>>=◌}
use monte_lauro_ml_cd32_ppc.Gpu.Pixels.{clear, rect, line, opaque_color}
use monte_lauro_ml_cd32_ppc.Gpu.Raster.{Vertex, Triangle, raster_tri}

-- `read_u16` and `read_u32`, at an offset that leaves room
abbrev read_u16 : Bytes → ℕ → ℕ
read_u16 b off = be16 (b.cell off) (b.cell (off + 1))

abbrev read_u32 : Bytes → ℕ → ℕ
read_u32 b off = be32 (b.cell off) (b.cell (off + 1)) (b.cell (off + 2)) (b.cell (off + 3))

-- Vertex `i` of a triangle, or the origin once one of the vertices up to it does not fit.
unfoldable vertex : Bytes → ℕ → ℕ → Vertex
vertex cmd ptr i =
    let voff = ptr + i * 4 in
    if ltb cmd.len (voff + 4)
    then record { x = pos 0; y = pos 0 }
    else record { x = signed 16 (read_u16 cmd voff); y = signed 16 (read_u16 cmd (voff + 2)) }

-- The colour word behind the vertices. Its first byte is tested, the other three are not.
unfoldable tri_color : Bytes → ℕ → Run ℕ
tri_color cmd ptr =
    if ltb (ptr + 12) cmd.len
    then if leb (ptr + 16) cmd.len then value (opaque_color (read_u32 cmd (ptr + 12))) else panic
    else value 0xFFFF_FFFF

unfoldable pub tri : Bytes → ℕ → Bytes → Run Bytes
unfolding vertex tri_color
tri cmd ptr v = tri_color cmd ptr >>= λ color.
    raster_tri (record { a = vertex cmd ptr 0; b = vertex cmd ptr 1; c = vertex cmd ptr 2 }) color v

-- a command other than the end of the list
unfoldable pub exec : Bytes → ℕ → ℕ → ℕ → Bytes → Run Bytes
exec cmd op flags word v =
    if op == 0x0001
    then value (clear (opaque_color word) v)
    else if op == 0x0002
    then value (rect flags (opaque_color word) v)
    else if op == 0x0003
    then tri cmd word v
    else if op == 0x0004
    then line (signed 8 (flags / 256)) (signed 8 (flags % 256)) (signed 16 (word / 2 ^ 16))
        (signed 16 (word % 2 ^ 16)) v
    else value v

unfoldable pub exec_from : ℕ → Bytes → ℕ → Bytes → Run Bytes
exec_from zero cmd off v = out_of_fuel
exec_from (suc fuel) cmd off v =
    let op = read_u16 cmd off in
    let flags = read_u16 cmd (off + 2) in
    let word = read_u32 cmd (off + 4) in
    let rest = exec cmd op flags word v >>= λ v'. exec_from fuel cmd (off + 8) v' in
    if ltb cmd.len (off + 8) then value v else if op == 0xFFFF then value v else rest

unfoldable pub exec_dl : Bytes → Bytes → Run Bytes
exec_dl cmd v = exec_from (suc (cmd.len / 8)) cmd 0 v
