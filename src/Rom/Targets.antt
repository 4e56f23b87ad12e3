-- ===== src/Rom/Targets.antt =====
-- src/bin/gen_rom.rs, `main`: the images of the three targets. A file is the list of its bytes.
use monte_lauro_ml_cd32_ppc.Base.{
  ℕ, zero, suc, ◌+◌, ◌-◌, ◌*◌, Bool, false, ◌&&◌, Option, none, some, List, [], ◌∷◌, if◌then◌else◌,
  ltb, leb, ◌==◌, min, be32, length, take,
}
use monte_lauro_ml_cd32_ppc.Base.Run.{Run, value, ◌>>=◌}
use monte_lauro_ml_cd32_ppc.Rom.Image.{Rom, new, w16, w32, words, ppc, bin}
use monte_lauro_ml_cd32_ppc.Rom.Programs.{
  build_ppc_hello, build_ppc_aros, build_ppc_game, build_cf_hello, build_cf_aros,
}

-- the option `--kernel`: not given, a file that cannot be read, or a file
pub data Kernel : Type 0 where
  not_given : Kernel
  unreadable : Kernel
  file : List ℕ → Kernel

-- `max_size`
abbrev pub max_size : ℕ
max_size = 512 * 1024 - 0x10000

-- the mark in the last two bytes
abbrev mark : Rom → Run Rom
mark = w16 0x7FFFE 0xFEED

-- `for off in (off..).step_by(4)`, `n` times
unfoldable fill : ℕ → ℕ → Rom → Run Rom
fill zero off rom = value rom
fill (suc n) off rom = w32 off 0x6000_0000 rom >>= fill n (off + 4)

-- a branch to itself and NOPs, up to 0x12000
unfoldable pub placeholder : Rom → Run Rom
unfolding fill
placeholder rom = w32 0x10000 0x4BFF_FFFC rom >>= fill 2047 0x10004

unfoldable hello_rom : Run Rom
hello_rom =
    words 0x0000 build_cf_hello new
    >>= ppc 0x0100 build_ppc_hello
    >>= w32 0x20000 0x4C00_0064
    >>= mark

unfoldable put_kernel : Kernel → Rom → Run Rom
put_kernel not_given rom = placeholder rom
put_kernel unreadable rom = value rom
put_kernel (file kdata) rom =
    if leb (length kdata) max_size then bin 0x10000 kdata rom else value rom

unfoldable pub aros_rom : Kernel → Run Rom
unfolding put_kernel
aros_rom kernel =
    words 0x0000 build_cf_aros new >>= ppc 0x0100 build_ppc_aros >>= put_kernel kernel >>= mark

-- the bytes of a file from an offset on
abbrev from_offset : ℕ → List ℕ → List ℕ
from_offset zero xs = xs
from_offset (suc n) [] = []
from_offset (suc n) (x ∷ xs) = from_offset n xs

abbrev word_at_start : List ℕ → ℕ
word_at_start (a ∷ b ∷ c ∷ d ∷ xs) = be32 a b c d
word_at_start _ = 0

abbrev has_magic : List ℕ → Bool
has_magic (a ∷ b ∷ xs) = a == 0x7F && b == 0x45
has_magic _ = false

-- the entry point of an ELF file, or 0
unfoldable elf_entry : Option (List ℕ) → ℕ
elf_entry none = 0
elf_entry (some e) =
    if ltb 0x1C (length e) && has_magic e then word_at_start (from_offset 0x18 e) else 0

-- where a game starts
unfoldable game_entry : Option (List ℕ) → ℕ
unfolding elf_entry
game_entry elf = if leb 0x2000 (elf_entry elf) then elf_entry elf else 0x2000

-- a game with no file, or an empty one, is the placeholder
unfoldable put_game : List ℕ → Rom → Run Rom
put_game kdata rom =
    if ltb 0 (length kdata)
    then bin 0x10000 (take (min (length kdata) max_size) kdata) rom
    else placeholder rom

unfoldable game_rom : (kdata : List ℕ) (elf : Option (List ℕ)) → Run Rom
unfolding put_game game_entry
game_rom kdata elf =
    words 0x0000 build_cf_aros new
    >>= ppc 0x0100 (build_ppc_game (game_entry elf))
    >>= put_game kdata
    >>= mark
