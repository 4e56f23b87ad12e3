-- ===== src/Rom/Layout.antt =====
-- src/bin/gen_rom.rs: where the parts of an image lie.
use monte_lauro_ml_cd32_ppc.Base.{
  ℕ, zero, suc, ◌+◌, ◌-◌, ◌≤◌, ◌<◌, List, [], ◌∷◌, min, write_cells, update, byte_of, length, take,
  slice, ◌≡◌, refl, ◌∙◌, ap, ap₂, arith, ◌⊎◌, inl, le→leb,
}
use monte_lauro_ml_cd32_ppc.Base.Run.{value}
use monte_lauro_ml_cd32_ppc.Rom.Image.{Rom, new, w16, w32, words, ppc, bin, copy_at}
use monte_lauro_ml_cd32_ppc.Rom.Programs.{build_ppc_aros, build_cf_aros, aros_setup}
use monte_lauro_ml_cd32_ppc.Rom.Targets.{aros_rom, file, max_size}

-- the bytes of halves and of words, the high one first
abbrev pub half_list : List ℕ → List ℕ
half_list [] = []
half_list (w ∷ ws) = byte_of 1 w ∷ byte_of 0 w ∷ half_list ws

abbrev pub word_list : List ℕ → List ℕ
word_list [] = []
word_list (w ∷ ws) = byte_of 3 w ∷ byte_of 2 w ∷ byte_of 1 w ∷ byte_of 0 w ∷ word_list ws

-- the image with bytes at an offset
abbrev put : ℕ → List ℕ → Rom → Rom
put off bytes rom = record rom { cell = write_cells rom.cell off bytes }

copy_at-put :
    (off : ℕ) (bytes : List ℕ) (rom : Rom)
    → off + length bytes ≤ rom.len
    → copy_at off bytes rom ≡ value (put off bytes rom)
copy_at-put off bytes rom h = rw (le→leb (off + length bytes) rom.len h) refl

words-put :
    (off : ℕ) (ws : List ℕ) (rom : Rom)
    → off + length (half_list ws) ≤ rom.len
    → words off ws rom ≡ value (put off (half_list ws) rom)
unfolding words w16 write_cells
words-put off [] rom h = refl
words-put off (w ∷ ws) rom h =
    rw (copy_at-put off (byte_of 1 w ∷ byte_of 0 w ∷ []) rom (omega arith)) (
      words-put (off + 2) ws (put off (byte_of 1 w ∷ byte_of 0 w ∷ []) rom) (omega arith)
      ∙ ap
          (λ o. value (record rom {
            cell =
                write_cells (update (update rom.cell off (byte_of 1 w)) (off + 1) (byte_of 0 w)) o
                  (half_list ws);
          }))
          (omega arith))

ppc-put :
    (off : ℕ) (ws : List ℕ) (rom : Rom)
    → off + length (word_list ws) ≤ rom.len
    → ppc off ws rom ≡ value (put off (word_list ws) rom)
unfolding ppc w32 write_cells
ppc-put off [] rom h = refl
ppc-put off (w ∷ ws) rom h =
    let bytes = byte_of 3 w ∷ byte_of 2 w ∷ byte_of 1 w ∷ byte_of 0 w ∷ [] in
    rw (copy_at-put off bytes rom (omega arith)) (
      ppc-put (off + 4) ws (put off bytes rom) (omega arith)
      ∙ ap
          (λ o.
            value
              (record rom { cell = write_cells (write_cells rom.cell off bytes) o (word_list ws) }))
          (omega arith))

cells_outside :
    (f : ℕ → ℕ) (off i : ℕ) (vs : List ℕ)
    → (i < off) ⊎ (off + length vs ≤ i)
    → write_cells f off vs i ≡ f i
unfolding write_cells
cells_outside f off i [] h = refl
cells_outside f off i (w ∷ vs) h =
    cells_outside (update f off w) (off + 1) i vs (ground arith) ∙ ground arith

-- a part of the image that lies apart from what is written
slice-apart :
    (f : ℕ → ℕ) (off o n : ℕ) (vs : List ℕ)
    → (o + n ≤ off) ⊎ (off + length vs ≤ o)
    → slice (write_cells f off vs) o n ≡ slice f o n
unfolding slice
slice-apart f off o zero vs h = refl
slice-apart f off o (suc n) vs h =
    ap₂ (λ x xs. x ∷ xs) (cells_outside f off o vs (ground arith))
      (slice-apart f off (o + 1) n vs (ground arith))

-- the first bytes of what is written
slice-written :
    (f : ℕ → ℕ) (off n : ℕ) (vs : List ℕ)
    → n ≤ length vs
    → slice (write_cells f off vs) off n ≡ take n vs
unfolding slice write_cells
slice-written f off zero vs h = refl
slice-written f off (suc n) [] h = absurd (omega arith)
slice-written f off (suc n) (v ∷ vs) h =
    ap₂ (λ x xs. x ∷ xs)
      (cells_outside (update f off v) (off + 1) off vs (inl (omega arith)) ∙ ground arith)
      (slice-written (update f off v) (off + 1) n vs (omega arith))

take_whole : (n : ℕ) (xs : List ℕ) → n ≡ length xs → take n xs ≡ xs
take_whole zero [] h = refl
take_whole zero (x ∷ xs) h = absurd (omega arith)
take_whole (suc n) [] h = absurd (omega arith)
take_whole (suc n) (x ∷ xs) h = ap (λ ys. x ∷ ys) (take_whole n xs (omega arith))

bin-put :
    (off : ℕ) (body : List ℕ) (rom : Rom)
    → off + length body ≤ rom.len
    → bin off body rom ≡ value (put off body rom)
unfolding bin
bin-put off body rom h =
    let end : min (off + length body) rom.len ≡ off + length body = ground arith in
    rw end (
      rw (le→leb off (off + length body) (omega arith))
        (rw (take_whole (off + length body - off) body (omega arith)) (copy_at-put off body rom h)))

slice-whole :
    (f : ℕ → ℕ) (off n : ℕ) (vs : List ℕ) → n ≡ length vs → slice (write_cells f off vs) off n ≡ vs
slice-whole f off n vs h = slice-written f off n vs (omega arith) ∙ take_whole n vs h

aros_sizes : (length (half_list build_cf_aros) ≡ 68) × (length (word_list build_ppc_aros) ≡ 252)
unfolding build_cf_aros build_ppc_aros aros_setup
aros_sizes = (refl, refl)

-- The image of the target `aros-bootstrap` with a kernel of at most 448 KB is made without a panic, and
-- holds the program of the ColdFire at 0, that of the PowerPC at 0x100, the kernel at 0x10000, all of it
-- but what would reach into the last two bytes, and there the mark.
pub aros_rom-holds :
    (kdata : List ℕ) (n : ℕ)
    → length kdata ≤ max_size
    → n ≤ length kdata
    → n ≤ max_size - 2
    → (rom : Rom) × (aros_rom (file kdata) ≡ value rom)
      × (slice rom.cell 0 68 ≡ half_list build_cf_aros)
      × (slice rom.cell 0x100 252 ≡ word_list build_ppc_aros)
      × (slice rom.cell 0x10000 n ≡ take n kdata)
      × (slice rom.cell 0x7FFFE 2 ≡ 0xFE ∷ 0xED ∷ [])
unfolding aros_rom new w16
aros_rom-holds kdata n hk hn h2 =
    let (cf_size, ppc_size) = aros_sizes in
    let cf = half_list build_cf_aros in
    let code = word_list build_ppc_aros in
    let rom0 = new in
    let rom1 = put 0 cf rom0 in
    let rom2 = put 0x100 code rom1 in
    let rom3 = put 0x10000 kdata rom2 in
    let rom4 = put 0x7FFFE (0xFE ∷ 0xED ∷ []) rom3 in
    (
      rom4,
      rw (words-put 0 build_cf_aros rom0 (omega (arith, cf_size))) (
          rw (ppc-put 0x100 build_ppc_aros rom1 (omega (arith, ppc_size))) (
            rw (le→leb (length kdata) max_size hk) (
              rw (bin-put 0x10000 kdata rom2 (omega arith))
                (copy_at-put 0x7FFFE (0xFE ∷ 0xED ∷ []) rom3 (omega arith))))),
      apart rom3.cell 0x7FFFE 0 68 (0xFE ∷ 0xED ∷ []) (omega arith)
          ∙ apart rom2.cell 0x10000 0 68 kdata (omega arith)
          ∙ apart rom1.cell 0x100 0 68 code (omega arith)
          ∙ slice-whole rom0.cell 0 68 cf (omega (arith, cf_size)),
      apart rom3.cell 0x7FFFE 0x100 252 (0xFE ∷ 0xED ∷ []) (omega arith)
          ∙ apart rom2.cell 0x10000 0x100 252 kdata (omega arith)
          ∙ slice-whole rom1.cell 0x100 252 code (omega (arith, ppc_size)),
      slice-apart rom3.cell 0x7FFFE 0x10000 n (0xFE ∷ 0xED ∷ []) (inl (omega arith))
          ∙ slice-written rom2.cell 0x10000 n kdata hn,
      slice-whole rom3.cell 0x7FFFE 2 (0xFE ∷ 0xED ∷ []) refl,
    )
  where
    apart :
        (f : ℕ → ℕ) (off o n : ℕ) (vs : List ℕ)
        → o + n ≤ off
        → slice (write_cells f off vs) o n ≡ slice f o n
    apart f off o n vs h = slice-apart f off o n vs (inl h)
