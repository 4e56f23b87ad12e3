-- ===== src/Save.antt =====
-- src/save.rs: the format of a save state. A file is the list of its bytes; this file has its numbers
-- and its sections.
pub mod Processors
pub mod Sections
pub mod State
pub mod Format
pub mod Ends
pub mod Whole
pub mod Reads
pub mod RoundTrips
pub mod Restored
mod Tests
use monte_lauro_ml_cd32_ppc.Base.{
  ℕ, zero, suc, ◌+◌, ◌*◌, ◌/◌, ◌%◌, ◌^◌, Bool, true, false, Option, none, some, List, [], ◌∷◌, ◌++◌,
  if◌then◌else◌, ltb, ◌==◌, map_option, length, update, u32,
}
use monte_lauro_ml_cd32_ppc.Base.Run.{Run, value, panic, out_of_fuel, map_run}
use monte_lauro_ml_cd32_ppc.Base.Exec.{Exit, ok, fault, Exec, pure, ◌>>=◌}

-- `Io` stands for every error of the file system. `MissingSection` is never given.
data SaveError : Type 0 where
  io : SaveError
  bad_magic : SaveError
  bad_version : ℕ → SaveError
  missing_section : ℕ → SaveError
  size_mismatch : (sec expected got : ℕ) → SaveError

-- `v.to_be_bytes()` of a number of `n` bytes, and `from_be_bytes`
abbrev to_be : ℕ → ℕ → List ℕ
to_be zero v = []
to_be (suc n) v = v / 256 ^ n % 256 ∷ to_be n v

abbrev be_from : ℕ → List ℕ → ℕ
be_from acc [] = acc
be_from acc (b ∷ bs) = be_from (acc * 256 + b) bs

abbrev from_be : List ℕ → ℕ
from_be bs = be_from 0 bs

-- the first `n` bytes, and the others
unfoldable pub split : ℕ → List ℕ → Option (List ℕ × List ℕ)
split zero bs = some ([], bs)
split (suc n) [] = none
split (suc n) (b ∷ bs) = map_option (λ r. (b ∷ r.0, r.1)) (split n bs)

-- What takes bytes from the front of a list.
abbrev Reader : Type 0 → Type 0
Reader A = Exec (List ℕ) SaveError A

abbrev or_io : List ℕ → Option (List ℕ × List ℕ) → Run (List ℕ × Exit SaveError (List ℕ))
or_io bs none = value (bs, fault io)
or_io bs (some (front, rest)) = value (rest, ok front)

-- `read_exact` into a buffer of `n` bytes
unfoldable read_exact : ℕ → Reader (List ℕ)
read_exact n bs = or_io bs (split n bs)

abbrev or_panic : Option (List ℕ × List ℕ) → Run (List ℕ × Exit SaveError ℕ)
or_panic none = panic
or_panic (some (front, rest)) = value (rest, ok (from_be front))

-- `uN::from_be_bytes(data[off..off + n].try_into().unwrap())`, with `off += n`
unfoldable field : ℕ → Reader ℕ
field n bs = or_panic (split n bs)

-- `for v in &r { buf.extend_from_slice(&v.to_be_bytes()); }` from index `i` on, and the loop that reads it
unfoldable words : (ℕ → ℕ) → ℕ → ℕ → List ℕ
words f i zero = []
words f i (suc n) = to_be 4 (f i) ++ words f (i + 1) n

unfoldable read_words : ℕ → ℕ → (ℕ → ℕ) → Reader (ℕ → ℕ)
read_words zero i f = pure f
read_words (suc n) i f = field 4 >>= λ v. read_words n (i + 1) (update f i v)

unfoldable write_sec : ℕ → List ℕ → List ℕ
write_sec id body = id ∷ (to_be 4 (u32 (length body)) ++ body)

unfoldable read_sec : Reader (ℕ × List ℕ)
unfolding read_exact
read_sec = do
  id ← read_exact 1
  len ← read_exact 4
  body ← read_exact (from_be len)
  pure (from_be id, body)

-- a section, and what `k` makes of the bytes after it; the first section that is not whole ends it
unfoldable more_sections :
    Run (List ℕ × Exit SaveError (ℕ × List ℕ))
    → (List ℕ → Run (List (ℕ × List ℕ)))
    → Run (List (ℕ × List ℕ))
more_sections (value (rest, ok sec)) k = map_run (λ secs. sec ∷ secs) (k rest)
more_sections (value (rest, fault e)) k = value []
more_sections panic k = panic
more_sections out_of_fuel k = out_of_fuel

-- `while let Ok((id, data)) = read_sec(&mut file) { sections.push((id, data)); }`
unfoldable read_sections : ℕ → List ℕ → Run (List (ℕ × List ℕ))
unfolding more_sections read_sec
read_sections zero bs = out_of_fuel
read_sections (suc fuel) bs = more_sections (read_sec bs) (read_sections fuel)
