-- ===== src/Tests/GameMonkeyRuns.antt =====
-- The theorems of the Game Monkey binding at concrete inputs.
use multi_script.Prelude.{
  ℕ, ◌+◌, ◌≡◌, ◌≢◌, refl, true, false, Option, none, some, List, [], ◌∷◌, codes, arith, length,
}
use mathlib.Core.Path.{ap₂}
use multi_script.Outcome.{ok}
use multi_script.Interface.Program.{Pointer, Program, done, pop_int}
use multi_script.Interface.Frame.{frame, serve}
use multi_script.Interface.Shared.{Classes}
use multi_script.Interface.Objects.{ScriptObject}
use multi_script.GameMonkey.Api.{Value, null_value, integer, user, function_info, class_info}
use multi_script.GameMonkey.Context.{GmScriptContext, GmClassInfo, GmScriptObject, run_string}
use multi_script.GameMonkey.Errors.{run_string-errors, line}
use multi_script.GameMonkey.Stack.{gm_function_callback}
use multi_script.GameMonkey.Stack.Frames.{gm_function_callback-serve}
use multi_script.GameMonkey.Stack.Calls.{call_script_gm, Returned}
use multi_script.GameMonkey.Callbacks.{gm_class_constructor_callback}
use multi_script.GameMonkey.Callbacks.Serves.{gm_class_constructor_callback-serve}
use multi_script.GameMonkey.Callbacks.Ends.{Owned}
use multi_script.Tests.GameMonkeyMachine.{machine}
use multi_script.Tests.Data.{add_two, desc_of, no_objects, releases_itself}

abbrev keeps_argument : Pointer → Program (Option Pointer)
keeps_argument o = pop_int λ v. done v

abbrev class : GmClassInfo
class = record {
  desc = 9;
  class = record {
    garbage_collect = true;
    super_class = none;
    name = codes "C";
    constructor = some keeps_argument;
    destructor = some releases_itself;
    to_string_method = none;
    methods = (record { name = codes "add"; method = λ o. add_two }) ∷ [];
  };
  gm_type_id = 7;
  gm_methods = [];
}

abbrev described : Classes
described p = none

abbrev object : ScriptObject
object = record { object_ptr = some 77; locked_by_script = false }

abbrev gm_object : GmScriptObject
gm_object = record { class_info = 0; gm_table = 1; gm_user_object = 2 }

abbrev context : List Value → GmScriptContext machine
context vs = record {
  machine = record { parameters = vs; pushed = null_value ∷ []; users = λ u. some 5; next = 20 };
  functions = desc_of add_two ∷ [];
  classes = class ∷ [];
  has_logger = true;
  log = codes "before" ∷ [];
  objects = record no_objects { at = λ q. some object };
  gm_objects = λ q. some gm_object;
}

gm_function_callback-serve_example :
    (c' : GmScriptContext machine) × (gm_function_callback machine described
        (function_info 0)
        (context (integer 10 ∷ integer 3 ∷ []))
      ≡ ok c')
    × (c'.machine.pushed ≡ integer 13 ∷ null_value ∷ [])
    × (c'.machine.parameters ≡ integer 10 ∷ integer 3 ∷ [])
    × (c' ≡ record (context (integer 10 ∷ integer 3 ∷ [])) { machine = c'.machine })
gm_function_callback-serve_example =
    gm_function_callback-serve machine described (context (integer 10 ∷ integer 3 ∷ [])) 0
      (desc_of add_two) (10 ∷ 3 ∷ []) {f = frame [] (13 ∷ [])} refl refl
      (elim [ none ↦ tt | some a ↦ elim [ none ↦ tt | some b ↦ λ pushed. tt ] ])
      (unfold serve in refl)

call_script_gm_example :
    Returned machine described
      (context [])
      (record { callee = 40; arguments = []; returned = none })
      (17 ∷ 14 ∷ [])
      42
call_script_gm_example =
    call_script_gm machine described (context [])
      (record { callee = 40; arguments = []; returned = none }) (17 ∷ 14 ∷ []) 42 refl
      (λ k is args. (refl, ap₂ (λ (n : ℕ) (vs : List Value). integer (n + length vs)) is args))

run_string-errors_example :
    run_string machine (codes "x") (context [])
    ≡ ok (
      false,
      record (context []) {
        log = codes "before" ∷ line (codes "first") ∷ line (codes "second") ∷ [];
      },
    )
run_string-errors_example =
    run_string-errors machine (codes "x") (context []) refl refl (omega arith, (omega arith, tt))

gm_class_constructor_callback-serve_example :
    (c' : GmScriptContext machine) × (u : ℕ) × (made : GmScriptObject)
    × (gm_class_constructor_callback machine described (class_info 0) (context (integer 33 ∷ []))
        ≡ ok c')
    × (c'.machine.pushed ≡ user 7 u ∷ null_value ∷ [])
    × (c'.machine.users u ≡ some 1)
    × (c'.gm_objects 1 ≡ some made)
    × (made.class_info ≡ 0)
    × (made.gm_user_object ≡ u)
    × (c'.objects.at 1 ≡ some (record { object_ptr = some 33; locked_by_script = false }))
    × ((q : Pointer) → q ≢ 1 → c'.objects.at q ≡ some object)
gm_class_constructor_callback-serve_example =
    gm_class_constructor_callback-serve machine described (context (integer 33 ∷ [])) 0 class
      (33 ∷ []) refl refl refl (λ v. tt) (unfold serve in refl)

abbrev owned : Owned machine (context []) 5 object class releases_itself
owned = record {
  made = gm_object;
  linked = refl;
  known = refl;
  destroys = refl;
  keeps = (refl, tt);
  live = refl;
}
