-- ===== src/Base/Arms.antt =====
-- A `match` on a field of an instruction: the table of its arms, and the handler of the rest.
use Prim.Native.Nat.{ℕ}
use mathlib.Core.List.{List, [], ◌∷◌, ◌++◌}
use mathlib.Core.Logic.{inl, inr}
use monte_lauro_ml_cd32_ppc.Base.Tests.{if◌then◌else◌, ◌==◌, Bool-cases}
use monte_lauro_ml_cd32_ppc.Base.Exec.{Exec, Ends}

-- the arms: a key, and what is done with the instruction
abbrev pub Arms : Type 0 → Type 0 → Type 0 → Type 0
Arms S E A = List (ℕ × (ℕ → Exec S E A))

module _ {S E A : Type 0} where
  -- the handler of a key, or the one for the keys that are not listed
  unfoldable pub select : ℕ → Arms S E A → (ℕ → Exec S E A) → ℕ → Exec S E A
  select key [] other = other
  select key ((k, handler) ∷ arms) other = if key == k then handler else select key arms other

  -- every handler of a table ends
  abbrev pub AllEnd : Arms S E A → Type 0
  AllEnd [] = Unit
  AllEnd ((k, handler) ∷ arms) = ((op : ℕ) → Ends (handler op)) × AllEnd arms

  pub AllEnd-append : (xs ys : Arms S E A) → AllEnd xs → AllEnd ys → AllEnd (xs ++ ys)
  AllEnd-append [] ys h k = k
  AllEnd-append ((key, handler) ∷ xs) ys (h, hs) k = (h, AllEnd-append xs ys hs k)

  pub Ends-select :
      (key : ℕ) (arms : Arms S E A) (other : ℕ → Exec S E A) (op : ℕ)
      → AllEnd arms
      → Ends (other op)
      → Ends (select key arms other op)
  unfolding select
  Ends-select key [] other op h e = e
  Ends-select key ((k, handler) ∷ arms) other op (h, hs) e = elim (Bool-cases (key == k)) [
    | inl p ↦ rw p (h op)
    | inr p ↦ rw p (Ends-select key arms other op hs e)
  ]
