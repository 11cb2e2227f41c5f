-- ===== src/Tests/LuaRuns.antt =====
-- The theorems of the Lua binding at concrete inputs.
use multi_script.Prelude.{
  ◌≡◌, refl, Bool, true, false, none, some, List, [], ◌∷◌, codes, arith, ap, if◌then◌else◌,
  bytes_eq,
}
use multi_script.Interface.Shared.{Classes}
use multi_script.Outcome.{ok}
use multi_script.Interface.Program.{GenericFunction}
use multi_script.Interface.Frame.{frame, serve}
use multi_script.Interface.Objects.{ScriptObject}
use multi_script.Interface.Lifecycle.Ends.{Gone}
use multi_script.Lua.Api.{Value, number, light, nil, userdata, script_function}
use multi_script.Lua.Context.{LuaScriptContext, LuaClassInfo}
use multi_script.Lua.Stack.{lua_function_callback, LuaScriptStack}
use multi_script.Lua.Stack.Functions.{lua_function_callback-serve}
use multi_script.Lua.Stack.Protocol.{call_script_lua, Called}
use multi_script.Lua.Callbacks.{lua_class_gc_callback}
use multi_script.Lua.Callbacks.Ends
use multi_script.Lua.Callbacks.Ends.{lua_class_destructor_callback-Kept, lua_class_gc_callback-Gone}
use multi_script.Tests.Data.{add_two, desc_of, no_objects, releases_itself}
use multi_script.Tests.LuaMachine.{machine, Machine}

abbrev machine_with : List Value → Machine
machine_with vs = record {
  stack = vs;
  globals_of = λ n. if bytes_eq n (codes "go") then script_function 0 else nil;
  blocks = λ b. some 5;
  next = 1;
}

abbrev class : LuaClassInfo
class = record {
  desc = 9;
  class = record {
    garbage_collect = true;
    super_class = none;
    name = codes "C";
    constructor = none;
    destructor = some releases_itself;
    to_string_method = none;
    methods = [];
  };
}

abbrev object : ScriptObject
object = record { object_ptr = some 77; locked_by_script = false }

abbrev context : GenericFunction → Bool → List Value → LuaScriptContext machine
context f logger vs = record {
  lua = machine_with vs;
  functions = desc_of f ∷ [];
  classes = class ∷ [];
  has_logger = logger;
  log = [];
  objects = record no_objects { at = λ q. some object };
}

abbrev nowhere : Classes
nowhere p = none

lua_function_callback-serve_example :
    (c' : LuaScriptContext machine) × (lua_function_callback machine nowhere
        (light 0)
        (context add_two true (number 3 ∷ number 10 ∷ []))
      ≡ ok (1, c'))
    × (c'.lua.stack ≡ number 13 ∷ [])
lua_function_callback-serve_example =
    lua_function_callback-serve machine nowhere (context add_two true (number 3 ∷ number 10 ∷ [])) 0
      (desc_of add_two) (10 ∷ 3 ∷ []) {f = frame [] (13 ∷ [])} refl refl (omega arith)
      (unfold serve in refl)

call_script_lua_example :
    (s t : LuaScriptStack machine) × Called machine nowhere
      (context add_two true (script_function 0 ∷ []))
      (17 ∷ 14 ∷ [])
      (number 31 ∷ [])
      s
      t
call_script_lua_example =
    call_script_lua machine nowhere (context add_two true (script_function 0 ∷ []))
      (script_function 0) (17 ∷ 14 ∷ []) (number 31 ∷ []) refl
      (λ l ready. (
        ap (λ (vs : List Value). (machine.lua_pcall 2 (record l { stack = vs })).0) ready,
        ap (λ (vs : List Value). (machine.lua_pcall 2 (record l { stack = vs })).1.stack) ready,
      ))

abbrev destroyed_call :
    Ends.Called machine (context add_two true (userdata 3 ∷ [])) 0 class 5 object releases_itself
destroyed_call = record {
  address = 3;
  argument = refl;
  holds = refl;
  known = refl;
  destroys = refl;
  live = refl;
  keeps = (refl, tt);
}

lua_class_gc_callback-Gone_example :
    (c' : LuaScriptContext machine) × (lua_class_gc_callback machine
        (light 0)
        (context add_two true (userdata 3 ∷ []))
      ≡ ok (0, c'))
    × Gone 5 (5 ∷ []) (context add_two true (userdata 3 ∷ [])).objects c'.objects
lua_class_gc_callback-Gone_example =
    lua_class_gc_callback-Gone machine (context add_two true (userdata 3 ∷ [])) destroyed_call
