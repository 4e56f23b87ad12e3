-- ===== src/Rom/Image.antt =====
-- src/bin/gen_rom.rs, `Rom`: the image of 512 KB and how it is filled. A range past its end is a panic.
use monte_lauro_ml_cd32_ppc.Base.{
  ℕ, ◌+◌, ◌-◌, ◌*◌, List, [], ◌∷◌, if◌then◌else◌, leb, min, Bytes, write_cells, byte_of, length,
  take,
}
use monte_lauro_ml_cd32_ppc.Base.Run.{Run, value, panic, ◌>>=◌}

-- `struct Rom(Vec<u8>)`
abbrev pub Rom : Type 0
Rom = Bytes

unfoldable pub new : Rom
new = record { len = 512 * 1024; cell = λ i. 0 }

-- `self.0[off..off + n].copy_from_slice(bytes)`
abbrev pub copy_at : ℕ → List ℕ → Rom → Run Rom
copy_at off bytes rom =
    if leb (off + length bytes) rom.len
    then value (record rom { cell = write_cells rom.cell off bytes })
    else panic

unfoldable pub w16 : (off v : ℕ) → Rom → Run Rom
w16 off v rom = copy_at off (byte_of 1 v ∷ byte_of 0 v ∷ []) rom

unfoldable pub w32 : (off v : ℕ) → Rom → Run Rom
w32 off v rom = copy_at off (byte_of 3 v ∷ byte_of 2 v ∷ byte_of 1 v ∷ byte_of 0 v ∷ []) rom

unfoldable pub words : ℕ → List ℕ → Rom → Run Rom
words off [] rom = value rom
words off (w ∷ ws) rom = w16 off w rom >>= words (off + 2) ws

unfoldable pub ppc : ℕ → List ℕ → Rom → Run Rom
ppc off [] rom = value rom
ppc off (w ∷ ws) rom = w32 off w rom >>= ppc (off + 4) ws

-- what does not fit is cut off; a start past the end is a panic
unfoldable pub bin : ℕ → List ℕ → Rom → Run Rom
bin off body rom =
    let end = min (off + length body) rom.len in
    if leb off end then copy_at off (take (end - off) body) rom else panic
