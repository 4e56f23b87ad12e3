-- ===== src/Rom/Programs.antt =====
-- src/bin/gen_rom.rs: the programs of the boot ROMs.
use monte_lauro_ml_cd32_ppc.Base.{
  ℕ, ◌+◌, ◌*◌, ◌/◌, ◌%◌, ◌^◌, List, [], ◌∷◌, ◌++◌, length, u16, sub32,
}
use monte_lauro_ml_cd32_ppc.Rom.{i_lwz, i_cmpi, i_addis, i_ori, i_stw, i_b, i_mtspr}

-- the branch that is written out, with BO 4 and BI 2
abbrev pub spin_branch : ℕ
spin_branch = 16 * 2 ^ 26 + 4 * 2 ^ 21 + 2 * 2 ^ 16 + 0xFFFD % 2 ^ 14

-- the address of the instruction after those of a list
abbrev next_address : List ℕ → ℕ
next_address code = 0x100 + length code * 4

-- `build_ppc_hello` up to its loop
unfoldable hello_setup : List ℕ
hello_setup =
    (i_lwz 3 0 0)
    ∷ (i_cmpi 3 1)
    ∷ spin_branch
    ∷ (i_addis 1 0 0x0001)
    ∷ (i_ori 1 1 0)
    ∷ (i_addis 3 0 0x0400)
    ∷ (i_ori 3 3 0)
    ∷ (i_addis 4 0 0x0401)
    ∷ (i_ori 4 4 0)
    ∷ (i_stw 4 4 3)
    ∷ (i_addis 5 0 0)
    ∷ (i_ori 5 5 1)
    ∷ (i_stw 5 0 3)
    ∷ (i_addis 6 0 0x03D0)
    ∷ (i_ori 6 6 0)
    ∷ (i_addis 7 0 0)
    ∷ (i_ori 7 7 0x00FF)
    ∷ (i_stw 7 0 6)
    ∷ (i_addis 8 0 0x0220)
    ∷ (i_ori 8 8 0x0020)
    ∷ []

-- the loop of `build_ppc_hello`, without its branch
unfoldable hello_loop : List ℕ
hello_loop =
    (i_lwz 9 0 8)
    ∷ (i_addis 10 0 0x0100)
    ∷ (i_ori 10 10 0)
    ∷ (i_stw 9 0 10)
    ∷ (i_lwz 11 0x10 3)
    ∷ []

unfoldable pub build_ppc_hello : List ℕ
unfolding i_lwz i_cmpi i_addis i_ori i_stw i_b hello_setup hello_loop
build_ppc_hello =
    let body = hello_setup ++ hello_loop in
    body ++ (i_b (next_address hello_setup) (next_address body) ∷ [])

-- `build_ppc_aros` up to its branch to the kernel
unfoldable pub aros_setup : List ℕ
aros_setup =
    (i_lwz 3 0 0)
    ∷ (i_cmpi 3 1)
    ∷ spin_branch
    ∷ (i_addis 3 0 0)
    ∷ (i_ori 3 3 0xB003)
    ∷ (i_mtspr 528 3)
    ∷ (i_addis 3 0 0)
    ∷ (i_ori 3 3 0x0001)
    ∷ (i_mtspr 529 3)
    ∷ (i_mtspr 536 3)
    ∷ (i_mtspr 537 3)
    ∷ (i_addis 1 0 0x01BF)
    ∷ (i_ori 1 1 0x0000)
    ∷ (i_addis 3 0 0x0000)
    ∷ (i_ori 3 3 0xFC00)
    ∷ (i_addis 4 0 0xCD32)
    ∷ (i_ori 4 4 0x0001)
    ∷ (i_stw 4 0 3)
    ∷ (i_addis 4 0 0x01C0)
    ∷ (i_stw 4 4 3)
    ∷ (i_addis 4 0 0)
    ∷ (i_stw 4 8 3)
    ∷ (i_addis 4 0 0x01C0)
    ∷ (i_stw 4 12 3)
    ∷ (i_addis 4 0 0)
    ∷ (i_stw 4 16 3)
    ∷ (i_addis 4 0 0x01C0)
    ∷ (i_stw 4 20 3)
    ∷ (i_addis 4 0 0x01B0)
    ∷ (i_stw 4 24 3)
    ∷ (i_addis 4 0 0x0010)
    ∷ (i_stw 4 28 3)
    ∷ (i_addis 4 0 0xFF00)
    ∷ (i_stw 4 32 3)
    ∷ (i_addis 4 0 0x0008)
    ∷ (i_stw 4 36 3)
    ∷ (i_addis 4 0 0x0100)
    ∷ (i_stw 4 40 3)
    ∷ (i_addis 4 0 0x0400)
    ∷ (i_stw 4 44 3)
    ∷ (i_addis 4 0 0x03D0)
    ∷ (i_stw 4 48 3)
    ∷ (i_addis 4 0 0x03E0)
    ∷ (i_stw 4 52 3)
    ∷ (i_addis 4 0 0x0300)
    ∷ (i_stw 4 56 3)
    ∷ (i_addis 4 0 0x0220)
    ∷ (i_ori 4 4 0x0020)
    ∷ (i_stw 4 60 3)
    ∷ (i_addis 4 0 0x0220)
    ∷ (i_stw 4 64 3)
    ∷ (i_addis 4 0 0x0001)
    ∷ (i_ori 4 4 0x0001)
    ∷ (i_addis 5 0 0x0180)
    ∷ (i_addis 6 0 0)
    ∷ (i_ori 6 6 0x0002)
    ∷ (i_addis 7 0 0x0100)
    ∷ (i_addis 8 0 0x0400)
    ∷ (i_addis 9 0 0x0401)
    ∷ (i_addis 10 0 0x03D0)
    ∷ (i_addis 11 0 0x03E0)
    ∷ (i_addis 12 0 0x0300)
    ∷ []

unfoldable pub build_ppc_aros : List ℕ
unfolding i_lwz i_cmpi i_addis i_ori i_stw i_b i_mtspr aros_setup
build_ppc_aros = aros_setup ++ (i_b 0x2000 (next_address aros_setup) ∷ [])

-- the bootstrap of a game up to its branch
unfoldable game_setup : List ℕ
game_setup =
    (i_lwz 3 0 0)
    ∷ (i_cmpi 3 1)
    ∷ spin_branch
    ∷ (i_addis 1 0 0x01BF)
    ∷ (i_ori 1 1 0)
    ∷ (i_addis 3 0 0x0000)
    ∷ (i_ori 3 3 0xFC00)
    ∷ (i_addis 4 0 0xCD32)
    ∷ (i_ori 4 4 0x0001)
    ∷ (i_stw 4 0 3)
    ∷ (i_addis 4 0 0x01C0)
    ∷ (i_stw 4 4 3)
    ∷ []

unfoldable pub build_ppc_game : ℕ → List ℕ
unfolding i_lwz i_cmpi i_addis i_ori i_stw i_b game_setup
build_ppc_game entry = game_setup ++ (i_b entry (next_address game_setup) ∷ [])

-- LEA of a source and a destination, and MOVE.L of a size to D0
abbrev copy_setup : (src dst size : ℕ) → List ℕ
copy_setup src dst size =
    0x41F9
    ∷ u16 (src / 2 ^ 16)
    ∷ u16 src
    ∷ 0x43F9
    ∷ u16 (dst / 2 ^ 16)
    ∷ u16 dst
    ∷ 0x203C
    ∷ u16 (size / 2 ^ 16)
    ∷ u16 size
    ∷ []

-- the copy loop after the words that stand before it: MOVE.L, SUBQ.L and BNE back
abbrev with_loop : List ℕ → List ℕ
with_loop before =
    let start = 0xFF00_0000 + length before * 2 in
    let after = 0xFF00_0000 + (length before + 2) * 2 + 2 in
    before ++ (0x2658 ∷ 0x5900 ∷ (0x6600 + sub32 start after % 2 ^ 8) ∷ [])

-- CLR.L D0, MOVEA D0, A0, MOVE.L #1, (A0), STOP and a branch to itself
abbrev handoff : List ℕ
handoff = 0x4280 ∷ 0x2200 ∷ 0x243C ∷ 0x0000 ∷ 0x0001 ∷ 0x4E72 ∷ 0x2000 ∷ 0x60FE ∷ []

-- `c[0]` is patched to its branch at the end.
abbrev entry_words : List ℕ
entry_words = 0x6002 ∷ 0x4E71 ∷ []

unfoldable pub build_cf_hello : List ℕ
build_cf_hello =
    with_loop (entry_words ++ copy_setup 0xFF00_0100 0x0000_0100 0x0000_0100) ++ handoff

unfoldable pub build_cf_aros : List ℕ
build_cf_aros =
    let program = with_loop (entry_words ++ copy_setup 0xFF00_0100 0x0000_0100 0x0000_0800) in
    with_loop (program ++ copy_setup 0xFF01_0000 0x0000_2000 0x0002_0000) ++ handoff
