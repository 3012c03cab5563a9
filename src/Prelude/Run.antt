-- ===== src/Prelude/Run.antt =====
-- What a call of the program does: it returns, throws std::runtime_error, leaves what C++ and Qt
-- define (an index outside a container, a missing return, a null pointer), or uses up the fuel of
-- a loop of the model.
use Prim.Native.String.{String}
use mathlib.Core.Option.{Option, none, some}

pub data Outcome {ℓ} (A : Type ℓ) : Type ℓ where
  ok : A → Outcome A
  throws : String → Outcome A
  undefined : Outcome A
  out_of_fuel : Outcome A

infixl 5 ◌>>=◌
abbrev pub ◌>>=◌ {ℓ κ} : {X : Type ℓ} {Y : Type κ} → Outcome X → (X → Outcome Y) → Outcome Y
out_of_fuel >>= next = out_of_fuel
undefined >>= next = undefined
throws what >>= next = throws what
ok x >>= next = next x

-- A read that must succeed.
abbrev pub defined {ℓ} : {A : Type ℓ} → Option A → Outcome A
defined none = undefined
defined (some a) = ok a
