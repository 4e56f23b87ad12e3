-- ===== src/Save/Reads.antt =====
-- Readers of bytes, and what they give for the bytes that were written.
use monte_lauro_ml_cd32_ppc.Base.{
  ℕ, zero, suc, ◌+◌, ◌^◌, ◌≤◌, ◌<◌, Bool, true, false, not, List, [], ◌∷◌, ◌++◌, ◌==◌, ltb, length,
  update, ◌≡◌, refl, subst, ap, ◌∙◌, arith, Bool-cases, inl, inr,
}
use monte_lauro_ml_cd32_ppc.Base.Run.{value}
use monte_lauro_ml_cd32_ppc.Base.Exec.{ok, pure, ◌>>=◌, continue}
use monte_lauro_ml_cd32_ppc.Save.{Reader, field, to_be, from_be, words, read_words}
use monte_lauro_ml_cd32_ppc.Save.Processors.{flag, loaded, sized, read_flag}
use monte_lauro_ml_cd32_ppc.Save.Format.{split-append, append_assoc}

-- `m` reads the bytes `xs` as `a`, whatever is behind them
pub record Reads {A : Type 0} (m : Reader A) (xs : List ℕ) (a : A) : Type 0 where
  pub at : (rest : List ℕ) → m (xs ++ rest) ≡ value (rest, ok a)

pub Reads-pure : {A : Type 0} {a : A} → Reads (pure a) [] a
unfolding pure
Reads-pure = record { at = λ rest. refl }

pub Reads-bind :
    {A B : Type 0} {m : Reader A} (f : A → Reader B) {xs ys : List ℕ} {a : A} {b : B}
    → Reads m xs a
    → Reads (f a) ys b
    → Reads (m >>= f) (xs ++ ys) b
unfolding ◌>>=◌ continue
Reads-bind f {xs = xs} {ys = ys} h k = record {
  at = λ rest. rw (append_assoc xs ys rest) (rw (h.at (ys ++ rest)) (k.at rest));
}

Reads-field : (n : ℕ) (xs : List ℕ) (v : ℕ) → n ≡ length xs → from_be xs ≡ v → Reads (field n) xs v
unfolding field
Reads-field n xs v h e = record {
  at = λ rest. rw h (rw (split-append xs rest) (ap (λ x. value (rest, ok x)) e));
}

pub Reads-u32 : {v : ℕ} → v < 2 ^ 32 → Reads (field 4) (to_be 4 v) v
Reads-u32 {v = v} h = Reads-field 4 (to_be 4 v) v refl (omega arith)

pub Reads-u16 : {v : ℕ} → v < 2 ^ 16 → Reads (field 2) (to_be 2 v) v
Reads-u16 {v = v} h = Reads-field 2 (to_be 2 v) v refl (omega arith)

pub Reads-u8 : {v : ℕ} → v < 2 ^ 8 → Reads (field 1) (to_be 1 v) v
Reads-u8 {v = v} h = Reads-field 1 (to_be 1 v) v refl (omega arith)

flag_back : (b : Bool) → not (flag b == 0) ≡ b
flag_back true = refl
flag_back false = refl

flag_lt : (b : Bool) → flag b < 2 ^ 8
flag_lt true = omega arith
flag_lt false = omega arith

pub Reads-flag : {b : Bool} → Reads read_flag (to_be 1 (flag b)) b
unfolding read_flag
Reads-flag {b = b} =
    subst (λ x. Reads (field 1 >>= λ v. pure (not (v == 0))) (to_be 1 (flag b)) x) (flag_back b)
      (Reads-bind _ (Reads-u8 {v = flag b} (flag_lt b)) Reads-pure)

-- the array `f` with the cells of `g` from `i` on
abbrev pub filled : ℕ → ℕ → (ℕ → ℕ) → (ℕ → ℕ) → ℕ → ℕ
filled zero i g f = f
filled (suc n) i g f = filled n (i + 1) g (update f i (g i))

filled_below : (n i : ℕ) (g f : ℕ → ℕ) (j : ℕ) → j < i → filled n i g f j ≡ f j
filled_below zero i g f j h = refl
filled_below (suc n) i g f j h =
    filled_below n (i + 1) g (update f i (g i)) j (omega arith) ∙ ground arith

pub filled_lem : (n i : ℕ) (g f : ℕ → ℕ) (j : ℕ) → i ≤ j → j < i + n → filled n i g f j ≡ g j
filled_lem zero i g f j h k = absurd (omega arith)
filled_lem (suc n) i g f j h k = elim (Bool-cases (j == i)) [
  | inl e ↦ filled_below n (i + 1) g (update f i (g i)) j (ground arith) ∙ ground arith
  | inr e ↦ filled_lem n (i + 1) g (update f i (g i)) j (ground arith) (omega arith)
]

pub Reads-words :
    (n i : ℕ) (g f : ℕ → ℕ)
    → ((j : ℕ) → g j < 2 ^ 32)
    → Reads (read_words n i f) (words g i n) (filled n i g f)
unfolding read_words words
Reads-words zero i g f h = Reads-pure
Reads-words (suc n) i g f h =
    Reads-bind _ (Reads-u32 (h i)) (Reads-words n (i + 1) g (update f i (g i)) h)

append_nil : (xs : List ℕ) → xs ++ [] ≡ xs
append_nil [] = refl
append_nil (x ∷ xs) = ap (◌∷◌ x) (append_nil xs)

not_below : (a b : ℕ) → b ≤ a → ltb a b ≡ false
not_below a b h = ground arith

pub sized-Reads :
    {A : Type 0} (sec expected : ℕ) {m : Reader A} {xs : List ℕ} (a : A)
    → Reads m xs a
    → expected ≤ length xs
    → sized sec expected m xs ≡ value (ok a)
unfolding sized
sized-Reads sec expected {m = m} {xs = xs} a h k =
    rw (not_below (length xs) expected k)
      (ap loaded (subst (λ ys. m ys ≡ value ([], ok a)) (append_nil xs) (h.at [])))

pub Reads-u64 : {v : ℕ} → v < 2 ^ 64 → Reads (field 8) (to_be 8 v) v
Reads-u64 {v = v} h = Reads-field 8 (to_be 8 v) v refl (omega arith)
