-- ===== src/Tests/SquirrelRuns.antt =====
-- The theorems of the Squirrel binding at concrete inputs.
use multi_script.Prelude.{
  ℕ, ◌≡◌, refl, true, false, Option, none, some, List, [], ◌∷◌, ◌++◌, Bytes, codes, arith,
  if◌then◌else◌, bytes_eq, get_elem?, ◌≢◌, ap,
}
use multi_script.Outcome.{ok, stop, assertion}
use multi_script.Interface.Program.{Pointer, Program, done, pop_int, run, push_ints}
use multi_script.Interface.Frame.{frame, serve}
use multi_script.Interface.Shared.{Classes, find_last}
use multi_script.Interface.Desc.{ClassDesc}
use multi_script.Interface.Objects.{ScriptObject}
use multi_script.Squirrel.Api.{
  Value, root_table, integer, user_pointer, class_value, instance_value, script_closure,
}
use multi_script.Squirrel.Context.{SquirrelScriptContext, SquirrelClassInfo, with_vm}
use multi_script.Squirrel.Context.Classes.{find_class_info, register_user_class}
use multi_script.Squirrel.Stack.{
  SquirrelScriptStack, new, methods, end_call, release_after_call, squirrel_function_callback,
  push_new_script_object,
}
use multi_script.Squirrel.Stack.Frames.{squirrel_function_callback-serve}
use multi_script.Squirrel.Stack.Protocol.{call_script_squirrel, call_script_fails, Returned}
use multi_script.Squirrel.Stack.Instances.{push_new_script_object-integer}
use multi_script.Squirrel.Registration.Members.{register_user_class-members, class_slots}
use multi_script.Squirrel.Callbacks.{
  squirrel_class_constructor_callback, squirrel_class_destructor_callback,
  squirrel_class_to_string_method_callback,
}
use multi_script.Squirrel.Callbacks.Invocation.{Invocation}
use multi_script.Squirrel.Callbacks.Serves.{squirrel_class_constructor_callback-serve}
use multi_script.Squirrel.Callbacks.Ends.{squirrel_class_destructor_callback_twice}
use multi_script.Tests.Data.{add_two, desc_of, no_objects, releases_itself}
use multi_script.Tests.SquirrelMachine.{Machine, Slots}
use multi_script.Tests.SquirrelMachine.Laws.{machine}

-- The root table binds "go" to a function and "C" to a class.
abbrev root_slots : Slots
root_slots none n =
    if bytes_eq n (codes "go")
    then some (script_closure 0)
    else (if bytes_eq n (codes "C") then some (class_value 8) else none)
root_slots (some c) n = none

abbrev machine_with : List Value → Machine
machine_with vs = record {
  stack = vs;
  slots = root_slots;
  ups = λ n. some 5;
  hooks = λ n. false;
  next = 20;
}

-- A constructor that keeps its one argument as the user object.
abbrev keeps_argument : Pointer → Program (Option Pointer)
keeps_argument o = pop_int λ v. done v

abbrev class_desc : ClassDesc
class_desc = record {
  garbage_collect = true;
  super_class = none;
  name = codes "C";
  constructor = some keeps_argument;
  destructor = some releases_itself;
  to_string_method = none;
  methods = (record { name = codes "add"; method = λ o. add_two }) ∷ [];
}

abbrev class : SquirrelClassInfo
class = record { desc = 9; class = class_desc }

abbrev described : Classes
described p = some class_desc

abbrev object : ScriptObject
object = record { object_ptr = some 77; locked_by_script = false }

abbrev context : List Value → SquirrelScriptContext machine
context vs = record {
  vm = machine_with vs;
  functions = desc_of add_two ∷ [];
  classes = class ∷ [];
  current_string_program = none;
  has_logger = false;
  log = [];
  objects = record no_objects { at = λ q. some object };
  class_info = λ q. some 0;
}

abbrev stack_over : List Value → SquirrelScriptStack machine
stack_over vs = record { context = context vs; num_pushed = 0; num_params = 0; is_call = false }

squirrel_function_callback-serve_example :
    (c' : SquirrelScriptContext machine) × (squirrel_function_callback machine described
        (context (user_pointer 0 ∷ integer 3 ∷ integer 10 ∷ root_table ∷ []))
      ≡ ok (1, c'))
    × (c'.vm.stack ≡ integer 13 ∷ root_table ∷ [])
    × (c'
        ≡ with_vm machine
            (context (user_pointer 0 ∷ integer 3 ∷ integer 10 ∷ root_table ∷ []))
            c'.vm)
squirrel_function_callback-serve_example =
    squirrel_function_callback-serve machine described
      (context (user_pointer 0 ∷ integer 3 ∷ integer 10 ∷ root_table ∷ [])) 0 (desc_of add_two)
      (10 ∷ 3 ∷ []) root_table {f = frame [] (13 ∷ [])} refl refl refl (omega arith)
      (unfold serve in refl)

call_script_squirrel_example :
    Returned machine described
      (context (root_table ∷ script_closure 0 ∷ root_table ∷ integer 6 ∷ []))
      (17 ∷ 14 ∷ [])
      31
      (integer 6 ∷ [])
call_script_squirrel_example =
    call_script_squirrel machine described
      (context (root_table ∷ script_closure 0 ∷ root_table ∷ integer 6 ∷ [])) (script_closure 0)
      (17 ∷ 14 ∷ []) 31 (integer 6 ∷ []) refl
      (λ l ready. (
        ap (λ (vs : List Value). (machine.sq_call 3 true (record l { stack = vs })).0) ready,
        ap
            (λ (vs : List Value).
              get_elem? (machine.sq_call 3 true (record l { stack = vs })).1.stack 0)
            ready,
      ))

call_script_fails_example :
    (s t : SquirrelScriptStack machine) × (c' : SquirrelScriptContext machine) × (run
        (methods machine described)
        (push_ints (17 ∷ []))
        (new machine
          (context (root_table ∷ script_closure 1 ∷ root_table ∷ integer 6 ∷ root_table ∷ []))
          true)
      ≡ ok (true, s))
    × (end_call machine s ≡ ok (false, t))
    × (t.context.vm.stack ≡ integer 6 ∷ root_table ∷ [])
    × (release_after_call machine t ≡ ok c')
    × (c'.vm.stack ≡ [])
call_script_fails_example =
    call_script_fails machine described
      (context (root_table ∷ script_closure 1 ∷ root_table ∷ integer 6 ∷ root_table ∷ []))
      (script_closure 1) (17 ∷ []) (integer 6) root_table [] refl
      (λ l ready.
        ap (λ (vs : List Value). (machine.sq_call 2 true (record l { stack = vs })).0) ready)

register_user_class-members_example :
    (c' : SquirrelScriptContext machine) × (k : ℕ) × (register_user_class machine 10 class_desc
        (context (root_table ∷ []))
      ≡ ok (true, c'))
    × (c'.vm.stack ≡ root_table ∷ [])
    × ((n : Bytes)
        → c'.vm.slots none n
          ≡ (if bytes_eq n (codes "C") then some (class_value k) else root_slots none n))
    × ((n : Bytes) → c'.vm.slots (some k) n ≡ find_last n (class_slots class_desc 1) none)
    × (get_elem? c'.classes 1 ≡ some (record { desc = 10; class = class_desc }))
register_user_class-members_example =
    register_user_class-members machine 10 class_desc (context (root_table ∷ [])) [] refl refl refl

abbrev invoked :
    (vs : List Value)
    → Invocation machine
        (context (user_pointer 0 ∷ vs ++ instance_value 4 ∷ []))
        0
        class
        5
        object
        vs
invoked vs = record { handle = 4; frame = refl; known = refl; up = refl; live = refl }

squirrel_class_constructor_callback-serve_example :
    (c' : SquirrelScriptContext machine) × (squirrel_class_constructor_callback machine described
        (context (user_pointer 0 ∷ integer 33 ∷ instance_value 4 ∷ []))
      ≡ ok (0, c'))
    × (c'.vm.stack ≡ instance_value 4 ∷ [])
    × (c'.vm.ups 4 ≡ some 1)
    × (c'.vm.hooks 4 ≡ true)
    × (c'.objects.at 1 ≡ some (record { object_ptr = some 33; locked_by_script = false }))
    × ((q : Pointer) → q ≢ 1 → c'.objects.at q ≡ some object)
    × (c'.class_info 1 ≡ some 0)
squirrel_class_constructor_callback-serve_example =
    squirrel_class_constructor_callback-serve machine described
      (context (user_pointer 0 ∷ integer 33 ∷ instance_value 4 ∷ [])) 0 class 4 (33 ∷ []) refl refl
      refl (omega arith) (unfold serve in refl)

squirrel_class_destructor_callback_twice_example :
    (c' : SquirrelScriptContext machine) × (squirrel_class_destructor_callback machine
        (context (user_pointer 0 ∷ instance_value 4 ∷ []))
      ≡ ok (0, c'))
    × (squirrel_class_destructor_callback machine
          (record c' { vm = machine_with (user_pointer 0 ∷ instance_value 4 ∷ []) })
        ≡ stop assertion)
    × (squirrel_class_to_string_method_callback machine
          (record c' { vm = machine_with (user_pointer 0 ∷ instance_value 4 ∷ []) })
        ≡ stop assertion)
squirrel_class_destructor_callback_twice_example =
    squirrel_class_destructor_callback_twice machine
      (context (user_pointer 0 ∷ instance_value 4 ∷ [])) (invoked [])
      (machine_with (user_pointer 0 ∷ instance_value 4 ∷ [])) [] refl (refl, tt) refl refl refl

push_new_script_object-integer_example :
    push_new_script_object machine described 9 (some 55) (stack_over (integer 4 ∷ root_table ∷ []))
    ≡ stop assertion
push_new_script_object-integer_example =
    push_new_script_object-integer machine described (stack_over (integer 4 ∷ root_table ∷ [])) 9 0
      class_desc (some 55) 4 (root_table ∷ []) (unfold find_class_info in refl) refl refl
