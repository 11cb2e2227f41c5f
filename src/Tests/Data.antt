-- ===== src/Tests/Data.antt =====
-- What the runs of the bindings share: a user function, a user destructor and an empty store.
use multi_script.Prelude.{◌+◌, ◌%◌, ◌^◌, none, some, false, [], codes}
use multi_script.Interface.Program.{Pointer, GenericFunction, done, pop_int, push_int}
use multi_script.Interface.Desc.{FunctionDesc}
use multi_script.Interface.Objects.{Objects, Teardown, release_object, finish}

-- The sum of two parameters, as a C `int`.
abbrev pub add_two : GenericFunction
add_two = pop_int λ first. elim first [
  | none ↦ done false
  | some a ↦ pop_int λ second. elim second [
    | none ↦ done false
    | some b ↦ push_int ((a + 2 ^ 32 + b) % 2 ^ 32) λ pushed. done pushed
  ]
]

abbrev pub desc_of : GenericFunction → FunctionDesc
desc_of f = record { name = codes "f"; function = f; num_params = 2 }

abbrev pub no_objects : Objects
no_objects = record { at = λ q. none; next = 1; destructed = [] }

abbrev pub releases_itself : Pointer → Teardown
releases_itself o = release_object o finish
