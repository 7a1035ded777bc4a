-- ===== src/Prelude/Total.antt =====
-- Total correctness of a step that passes a state and may fail: it gives a result, and the result
-- meets a postcondition.
use mathlib.Core.Path.{◌≡◌, refl}
use mathlib.Core.Option.{Option, some}

pub data Returns {A S : Type 0} (P : A → S → Type 0) : Option (A × S) → Type 0 where
  returns : {a : A} {s : S} → P a s → Returns P (some (a, s))

module _ {A S : Type 0} {P : A → S → Type 0} where
  pub Returns-mono :
      {Q : A → S → Type 0} {r : Option (A × S)}
      → Returns P r
      → ((a : A) (s : S) → P a s → Q a s)
      → Returns Q r
  Returns-mono (returns p) weaken = returns (weaken _ _ p)

  -- The result of a run that returns, with its postcondition.
  pub Returns-result :
      {r : Option (A × S)} → Returns P r → (a : A) × (s : S) × (r ≡ some (a, s)) × P a s
  Returns-result (returns {a} {s} p) = (a, s, refl, p)

-- An operation gives a result, and the result meets a postcondition.
abbrev pub Gives : {R : Type 0} → Option R → (R → Type 0) → Type 0
Gives {R} o P = (r : R) × (o ≡ some r) × P r
