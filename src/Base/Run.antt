-- ===== src/Base/Run.antt =====
-- What a run of the source may come to: a value, a panic (an index or a range out of bounds), or,
-- for a loop that the model runs on fuel, the end of the fuel.
use mathlib.Core.Path.{refl}
use mathlib.Core.Logic.{◌≢◌}

pub data Run {ℓ} (A : Type ℓ) : Type ℓ where
  value : A → Run A
  panic : Run A
  out_of_fuel : Run A

infixl 5 ◌>>=◌
abbrev pub ◌>>=◌ {ℓ κ} : {A : Type ℓ} {B : Type κ} → Run A → (A → Run B) → Run B
value a >>= f = f a
panic >>= f = panic
out_of_fuel >>= f = out_of_fuel

abbrev pub map_run {ℓ κ} : {A : Type ℓ} {B : Type κ} → (A → B) → Run A → Run B
map_run f (value a) = value (f a)
map_run f panic = panic
map_run f out_of_fuel = out_of_fuel

pub map_run-ends :
    {A B : Type 0} (f : A → B) (r : Run A) → r ≢ out_of_fuel → map_run f r ≢ out_of_fuel
map_run-ends f (value a) p h = cc
map_run-ends f panic p h = cc
map_run-ends f out_of_fuel p h = p refl
