-- ===== src/Samples.antt =====
-- The functions of multiscript_test/MultiScriptTest.cpp that the sample scripts call.
pub mod Agreement
use multi_script.Prelude.{ℕ, ◌+◌, ◌%◌, ◌^◌, Bool, true, false, Option, none, some}
use multi_script.Interface.Program.{GenericFunction, done, pop_int, push_int}

-- `MyAdd`; the sum of two `int`s wraps round.
unfoldable pub my_add : GenericFunction
my_add = pop_int λ first. elim first [
  | none ↦ done false
  | some a ↦ pop_int λ second. elim second [
    | none ↦ done false
    | some b ↦
        push_int ((a + b) % 2 ^ 32) λ pushed. elim pushed [ true ↦ done true | false ↦ done false ]
  ]
]
