-- ===== src/Prelude/Outcomes.antt =====
-- What a call that may stop the process returns: `ymabort` and a failed `ymassert` call abort().
use mathlib.Core.Path.{◌≡◌, refl, ap, ◌∙◌}
use mathlib.Core.Bool.{Bool, true, false}

pub data Outcome {m} (Value : Type m) : Type m where
  abort : Outcome Value
  ok : Value → Outcome Value

infixl 5 ◌>>=◌
abbrev pub ◌>>=◌ {m n} :
    {Value : Type m} {After : Type n} (before : Outcome Value) (next : Value → Outcome After)
    → Outcome After
abort >>= next = abort
ok value >>= next = next value

-- ymassert: goes on if the test holds, and stops the process if not.
abbrev pub ymassert : Bool → Outcome (Unit {0})
ymassert true = ok tt
ymassert false = abort

infixl 5 ◌>>◌
abbrev pub ◌>>◌ {m} :
    {After : Type m} (checked : Outcome (Unit {0})) (next : Outcome After) → Outcome After
checked >> next = checked >>= λ _. next

-- Inversion of a successful chain.
pub >>=-eq-ok {m n} :
    {Value : Type m} {After : Type n} (before : Outcome Value) (next : Value → Outcome After)
    {result : After}
    → before >>= next ≡ ok result
    → (value : Value) × (before ≡ ok value) × (next value ≡ ok result)
>>=-eq-ok abort next ran = cc
>>=-eq-ok (ok value) next ran = (value, refl, ran)

-- A chain goes on with the value of a step that succeeds.
pub >>=-ok {m n} :
    {Value : Type m} {After : Type n} (before : Outcome Value) (next : Value → Outcome After)
    {value : Value} {result : Outcome After}
    → before ≡ ok value
    → next value ≡ result
    → before >>= next ≡ result
>>=-ok before next {value} ran goes_on = ap (λ step. step >>= next) ran ∙ goes_on
