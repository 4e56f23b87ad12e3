-- ===== src/Save/Format.antt =====
-- The file of a save state: its sections come back, every file is read to an end, and what is no save
-- state is refused.
use monte_lauro_ml_cd32_ppc.Base.{
  ℕ, zero, suc, ◌+◌, ◌^◌, ◌≤◌, ◌<◌, Option, none, some, List, [], ◌∷◌, ◌++◌, length, u32,
  map_option, ◌≡◌, ◌≢◌, refl, ap, arith,
}
use monte_lauro_ml_cd32_ppc.Base.Run.{Run, value, panic, out_of_fuel, map_run, map_run-ends}
use monte_lauro_ml_cd32_ppc.Base.Exec.{Ends, ends_rules, Exit, ok, fault, pure, ◌>>=◌, continue}
use monte_lauro_ml_cd32_ppc.Save.{
  Reader, SaveError, io, split, read_exact, or_io, to_be, from_be, write_sec, read_sec,
  more_sections, read_sections,
}
use monte_lauro_ml_cd32_ppc.Save.State.{write_secs}

-- the split at the end of the first list
pub split-append : (xs ys : List ℕ) → split (length xs) (xs ++ ys) ≡ some (xs, ys)
unfolding split
split-append [] ys = refl
split-append (x ∷ xs) ys = ap (map_option (λ r. (x ∷ r.0, r.1))) (split-append xs ys)

pub from_be-to_be_4 : (v : ℕ) → v < 2 ^ 32 → from_be (to_be 4 v) ≡ v
from_be-to_be_4 v h = omega arith

pub read_body :
    (n : ℕ) (body rest : List ℕ)
    → n ≡ length body
    → read_exact n (body ++ rest) ≡ value (rest, ok body)
unfolding read_exact
read_body n body rest h = rw h (rw (split-append body rest) refl)

-- a section that is read back
read_sec-write_sec :
    (id : ℕ) (body rest : List ℕ)
    → length body < 2 ^ 32
    → read_sec (write_sec id body ++ rest) ≡ value (rest, ok (id, body))
unfolding read_sec write_sec pure ◌>>=◌ continue
read_sec-write_sec id body rest h =
    let len = to_be 4 (u32 (length body)) in
    rw (read_body 1 (id ∷ []) (len ++ (body ++ rest)) refl) (
      rw (read_body 4 len (body ++ rest) refl) (
        rw (read_body (from_be len) body rest (omega arith))
          (ap (λ i. value (rest, ok (i, body))) (omega arith))))

pub end_of_file : read_sec [] ≡ value ([], fault io)
unfolding read_sec read_exact split ◌>>=◌ continue
end_of_file = refl

-- the bodies fit in the 32 bits of a length
pub data Fit : List (ℕ × List ℕ) → Type 0 where
  fit_none : Fit []
  fit_more :
      {id : ℕ} {body : List ℕ} {secs : List (ℕ × List ℕ)}
      → length body < 2 ^ 32
      → Fit secs
      → Fit ((id, body) ∷ secs)

pub append_assoc : (xs ys zs : List ℕ) → (xs ++ ys) ++ zs ≡ xs ++ (ys ++ zs)
append_assoc [] ys zs = refl
append_assoc (x ∷ xs) ys zs = ap (◌∷◌ x) (append_assoc xs ys zs)

-- What `write_sec` has written one after the other, the loop of `load_state` reads back, up to the end
-- of the file.
pub read_sections-write_secs :
    (fuel : ℕ) (secs : List (ℕ × List ℕ))
    → Fit secs
    → length secs < fuel
    → read_sections fuel (write_secs secs) ≡ value secs
unfolding read_sections write_secs more_sections
read_sections-write_secs zero secs f h = absurd (omega arith)
read_sections-write_secs (suc fuel) [] f h = rw end_of_file refl
read_sections-write_secs (suc fuel) ((id, body) ∷ secs) (fit_more b f) h =
    rw (read_sec-write_sec id body (write_secs secs) b) (
      ap (map_run (λ secs. (id, body) ∷ secs)) (read_sections-write_secs fuel secs f (omega arith)))

-- a reader that takes `n` bytes at least, where it succeeds
record Takes {A : Type 0} (n : ℕ) (m : Reader A) : Type 0 where
  pub at : (bs rest : List ℕ) (a : A) → m bs ≡ value (rest, ok a) → length rest + n ≤ length bs

split-length :
    (n : ℕ) (bs front rest : List ℕ) → split n bs ≡ some (front, rest) → length rest + n ≡ length bs
unfolding split
split-length zero bs front rest h = ground arith
split-length (suc n) [] front rest h = absurd cc
split-length (suc n) (b ∷ bs) front rest h = go (split n bs) (split-length n bs) h
  where
    go :
        (o : Option (List ℕ × List ℕ))
        → ((f r : List ℕ) → o ≡ some (f, r) → length r + n ≡ length bs)
        → map_option {B = List ℕ × List ℕ} (λ r. (b ∷ r.0, r.1)) o ≡ some (front, rest)
        → length rest + suc n ≡ suc (length bs)
    go none k e = absurd cc
    go (some (f, r)) k e = ground (arith, k f r refl)

Takes-pure : {A : Type 0} (a : A) → Takes 0 (pure {S = List ℕ} {E = SaveError} a)
unfolding pure
Takes-pure a = record { at = λ bs rest a' h. ground arith }

Takes-bind :
    {A B : Type 0} (n k : ℕ) (m : Reader A) (f : A → Reader B)
    → Takes n m
    → ((a : A) → Takes k (f a))
    → Takes (n + k) (m >>= f)
unfolding ◌>>=◌ continue
Takes-bind {A} {B} n k m f hm hf = record { at = λ bs rest b h. go bs rest b (m bs) refl h }
  where
    go :
        (bs rest : List ℕ) (b : B) (r : Run (List ℕ × Exit SaveError A))
        → m bs ≡ r
        → continue r f ≡ value (rest, ok b)
        → length rest + (n + k) ≤ length bs
    go bs rest b (value (mid, ok a)) e h = omega (arith, hm.at bs mid a e, (hf a).at mid rest b h)
    go bs rest b (value (mid, fault x)) e h = absurd cc
    go bs rest b panic e h = absurd cc
    go bs rest b out_of_fuel e h = absurd cc

Takes-read_exact : (n : ℕ) → Takes n (read_exact n)
unfolding read_exact
Takes-read_exact n = record { at = λ bs rest a h. go bs rest a (split n bs) refl h }
  where
    go :
        (bs rest a : List ℕ) (o : Option (List ℕ × List ℕ))
        → split n bs ≡ o
        → or_io bs o ≡ value (rest, ok a)
        → length rest + n ≤ length bs
    go bs rest a none e h = absurd cc
    go bs rest a (some (f, r)) e h = ground (arith, split-length n bs f r e)

weaken : {A : Type 0} (n k : ℕ) (m : Reader A) → k ≤ n → Takes n m → Takes k m
weaken n k m h t = record { at = λ bs rest a e. omega (arith, t.at bs rest a e) }

Takes-read_sec : Takes 5 read_sec
unfolding read_sec
Takes-read_sec = Takes-bind 1 4 _ _ (Takes-read_exact 1) (λ id.
    Takes-bind 4 0 _ _ (Takes-read_exact 4) (λ len.
      Takes-bind 0 0 _ _
        (weaken (from_be len) 0 (read_exact (from_be len)) (omega arith)
          (Takes-read_exact (from_be len)))
        (λ body. Takes-pure (from_be id, body))))

pub Ends-read_exact : (n : ℕ) → Ends (read_exact n)
unfolding read_exact
Ends-read_exact n = record { at = λ bs. go bs (split n bs) }
  where
    go : (bs : List ℕ) (o : Option (List ℕ × List ℕ)) → or_io bs o ≢ out_of_fuel
    go bs none h = cc
    go bs (some (f, r)) h = cc

Ends-read_sec : Ends read_sec
unfolding read_sec
Ends-read_sec = search (ends_rules, Ends-read_exact)

more_sections-ends :
    (r : Run (List ℕ × Exit SaveError (ℕ × List ℕ))) (k : List ℕ → Run (List (ℕ × List ℕ)))
    → r ≢ out_of_fuel
    → ((rest : List ℕ) (sec : ℕ × List ℕ) → r ≡ value (rest, ok sec) → k rest ≢ out_of_fuel)
    → more_sections r k ≢ out_of_fuel
unfolding more_sections
more_sections-ends (value (rest, ok sec)) k h hk = map_run-ends _ _ (hk rest sec refl)
more_sections-ends (value (rest, fault x)) k h hk = λ p. cc
more_sections-ends panic k h hk = λ p. cc
more_sections-ends out_of_fuel k h hk = absurd (h refl)

-- With as much fuel as a file has bytes and one, the loop over its sections ends.
pub read_sections-ends :
    (fuel : ℕ) (bs : List ℕ) → length bs < fuel → read_sections fuel bs ≢ out_of_fuel
unfolding read_sections
read_sections-ends zero bs h = absurd (omega arith)
read_sections-ends (suc fuel) bs h =
    more_sections-ends (read_sec bs) (read_sections fuel) (Ends-read_sec.at bs)
      (λ rest sec e. read_sections-ends fuel rest (omega (arith, Takes-read_sec.at bs rest sec e)))
