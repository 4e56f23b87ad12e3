-- ===== src/Base/Arrays.antt =====
-- Fixed arrays and buffers as functions from an index, with the length beside them where it
-- matters; and lists measured by native numbers.
use Prim.Native.Nat.{ℕ, zero, suc, ◌+◌}
use Prim.Native.Nat.add
use mathlib.Core.Path.{◌≡◌, refl, ap, ap₂, ◌∙◌}
use mathlib.Core.Option.{Option, none, some}
use mathlib.Core.List.{List, [], ◌∷◌, ◌++◌}
use native.Mathlib.Omega.{arith}
use monte_lauro_ml_cd32_ppc.Base.Tests.{ltb, ◌==◌, if◌then◌else◌}

-- `a[i] = v`
abbrev pub update {ℓ} : {A : Type ℓ} → (ℕ → A) → ℕ → A → ℕ → A
update f i v j = if j == i then v else f j

-- A `Vec<u8>` or `[u8]`: its length, and its bytes by index. A cell at or past `len` is not read.
pub record Bytes : Type 0 where
  pub len : ℕ
  pub cell : ℕ → ℕ

-- `slice.get(i)`
abbrev pub get_elem? : Bytes → ℕ → Option ℕ
get_elem? b i = if ltb i b.len then some (b.cell i) else none

-- `slice[off..off + n]`, for a range that the caller has checked
unfoldable pub slice : (ℕ → ℕ) → ℕ → ℕ → List ℕ
slice f off zero = []
slice f off (suc n) = f off ∷ slice f (off + 1) n

-- copies a list to the cells from `off` on
unfoldable pub write_cells : (ℕ → ℕ) → ℕ → List ℕ → ℕ → ℕ
write_cells f off [] = f
write_cells f off (v ∷ vs) = write_cells (update f off v) (off + 1) vs

module _ {ℓ} {A : Type ℓ} where
  abbrev pub length : List A → ℕ
  length [] = 0
  length (x ∷ xs) = suc (length xs)

  abbrev pub take : ℕ → List A → List A
  take zero xs = []
  take (suc n) [] = []
  take (suc n) (x ∷ xs) = x ∷ take n xs

  pub length-append : (xs ys : List A) → length (xs ++ ys) ≡ length xs + length ys
  length-append [] ys = omega arith
  length-append (x ∷ xs) ys = omega (arith, length-append xs ys)

pub length-slice : (f : ℕ → ℕ) (off n : ℕ) → length (slice f off n) ≡ n
unfolding slice
length-slice f off zero = refl
length-slice f off (suc n) = ap suc (length-slice f (off + 1) n)

pub slice-add :
    (f : ℕ → ℕ) (off m n : ℕ) → slice f off (m + n) ≡ slice f off m ++ slice f (off + m) n
unfolding slice
slice-add f off zero n = ap₂ (slice f) (omega arith) (omega arith)
slice-add f off (suc m) n =
    ap (λ k. slice f off k) (add.suc m n)
    ∙ ap (◌∷◌ (f off)) (slice-add f (off + 1) m n)
    ∙ ap (λ k. f off ∷ (slice f (off + 1) m ++ slice f k n)) (omega arith)
