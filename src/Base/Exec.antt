-- ===== src/Base/Exec.antt =====
-- Code that reads and changes a state, and may fail or panic: `Result` beside `&mut self`. What was
-- changed before an error stays changed.
use mathlib.Core.Bool.{Bool, true, false}
use mathlib.Core.Path.{refl}
use mathlib.Core.Logic.{◌≢◌}
use monte_lauro_ml_cd32_ppc.Base.Tests.{if◌then◌else◌}
use monte_lauro_ml_cd32_ppc.Base.Run.{Run, value, panic, out_of_fuel}

pub data Exit (E A : Type 0) : Type 0 where
  ok : A → Exit E A
  fault : E → Exit E A

abbrev pub Exec : Type 0 → Type 0 → Type 0 → Type 0
Exec S E A = S → Run (S × Exit E A)

abbrev pub Done : Type 0
Done = Unit {0}

module _ {S E A : Type 0} where
  unfoldable pub pure : A → Exec S E A
  pure a s = value (s, ok a)

  unfoldable pub raise : E → Exec S E A
  raise e s = value (s, fault e)

  unfoldable pub gets : (S → A) → Exec S E A
  gets f s = value (s, ok (f s))

  -- a panic of the source
  unfoldable pub crash : Exec S E A
  crash s = panic

unfoldable pub modify : {S E : Type 0} → (S → S) → Exec S E Done
modify f s = value (f s, ok tt)

-- `?`: the rest runs after a value only
unfoldable pub continue :
    {S E A B : Type 0} → Run (S × Exit E A) → (A → Exec S E B) → Run (S × Exit E B)
continue (value (s, ok a)) f = f a s
continue (value (s, fault e)) f = value (s, fault e)
continue panic f = panic
continue out_of_fuel f = out_of_fuel

infixl 5 ◌>>=◌ ◌>>◌
unfoldable pub ◌>>=◌ : {S E A B : Type 0} → Exec S E A → (A → Exec S E B) → Exec S E B
unfolding continue
◌>>=◌ m f s = continue (m s) f

abbrev pub ◌>>◌ : {S E B : Type 0} → Exec S E Done → Exec S E B → Exec S E B
m >> k = m >>= λ _. k

-- `m` comes to an end in every state: in a result, an error or a panic
pub record Ends {S E A : Type 0} (m : Exec S E A) : Type 0 where
  pub at : (s : S) → m s ≢ out_of_fuel

module _ {S E A : Type 0} where
  pub Ends-pure : (a : A) → Ends (pure {S = S} {E = E} a)
  unfolding pure
  Ends-pure a = record { at = λ s h. cc }

  pub Ends-raise : (e : E) → Ends (raise {S = S} {A = A} e)
  unfolding raise
  Ends-raise e = record { at = λ s h. cc }

  pub Ends-gets : (f : S → A) → Ends (gets {E = E} f)
  unfolding gets
  Ends-gets f = record { at = λ s h. cc }

  pub Ends-crash : Ends (crash {S = S} {E = E} {A = A})
  unfolding crash
  Ends-crash = record { at = λ s h. cc }

  pub Ends-if : (b : Bool) (m n : Exec S E A) → Ends m → Ends n → Ends (if b then m else n)
  Ends-if true m n hm hn = hm
  Ends-if false m n hm hn = hn

pub Ends-modify : {S E : Type 0} (f : S → S) → Ends (modify {E = E} f)
unfolding modify
Ends-modify f = record { at = λ s h. cc }

pub Ends-bind :
    {S E A B : Type 0} (m : Exec S E A) (f : A → Exec S E B)
    → Ends m
    → ((a : A) → Ends (f a))
    → Ends (m >>= f)
unfolding ◌>>=◌
Ends-bind {S} {E} {A} {B} m f hm hf = record { at = λ s. go (m s) (hm.at s) }
  where
    go : (r : Run (S × Exit E A)) → r ≢ out_of_fuel → continue r f ≢ out_of_fuel
    go (value (s, ok a)) h = (hf a).at s
    go (value (s, fault e)) h = λ p. cc
    go panic h = λ p. cc
    go out_of_fuel h = absurd (h refl)

pub ruleset ends_rules =
    (Ends-pure, Ends-raise, Ends-gets, Ends-crash, Ends-modify, Ends-if, Ends-bind)
