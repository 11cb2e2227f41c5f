-- ===== src/Outcome.antt =====
-- What a piece of the C and C++ code can come to: a value, or one of the ways in which control does
-- not come back to the caller.
use multi_script.Prelude.{ℕ, Bool, true, false}

pub data Stop : Type 0 where
  -- `MultiScriptAssert` prints its condition and then spins for ever
  assertion : Stop
  -- undefined behaviour: a null or dangling pointer, an access out of bounds
  undefined : Stop
  -- the process ends with this status
  exited : ℕ → Stop
  -- the runtime calls `caml_raise_out_of_memory`, which does not come back
  out_of_memory : Stop
  -- the runtime raises its exception for an error of the system
  sys_error : Stop
  -- the runtime raises its exception for a failure
  failure : Stop
  -- the runtime raises its exception for the end of a file
  end_of_file : Stop
  -- the fuel of a loop is used up, which the theorems rule out
  no_fuel : Stop

pub data Outcome {ℓ} (A : Type ℓ) : Type ℓ where
  ok : A → Outcome A
  stop : Stop → Outcome A

module _ {ℓ κ} {A : Type ℓ} {B : Type κ} where
  infixl 5 ◌>>=◌
  abbrev pub ◌>>=◌ : Outcome A → (A → Outcome B) → Outcome B
  stop why >>= next = stop why
  ok a >>= next = next a

infixl 5 ◌>>◌
abbrev pub ◌>>◌ {κ} : {B : Type κ} → Outcome (Unit {0}) → Outcome B → Outcome B
stop why >> after = stop why
ok _ >> after = after

-- `MultiScriptAssert(condition)`
abbrev pub assert : Bool → Outcome (Unit {0})
assert true = ok tt
assert false = stop assertion

-- An access that the language leaves undefined unless the condition holds.
abbrev pub require : Bool → Outcome (Unit {0})
require holds = elim holds [ false ↦ stop undefined | true ↦ ok tt ]
