-- ===== src/GameMonkey/Context.antt =====
-- multiscript/GMScriptContext.cpp: the context, the execution of text, functions and classes.
use multi_script.Prelude.{
  ℕ, ◌+◌, Bool, true, false, Option, none, some, List, [], ◌∷◌, ◌++◌, Bytes, codes, ◌==◌,
  if◌then◌else◌, length,
}
use multi_script.Outcome.{Outcome, ok, stop, undefined, ◌>>=◌, ◌>>◌, assert}
use multi_script.Interface.Program.{Pointer}
use multi_script.Interface.Shared.{is_some, next_position}
use multi_script.Interface.Desc.{FunctionDesc, ClassDesc, ClassMethodDesc}
use multi_script.Interface.Objects.{Objects}
use multi_script.Interface.Utilities.{sprintf}
use multi_script.GameMonkey.Api.{
  GmApi, FunctionEntry, function_callback, constructor_callback, destructor_callback,
  to_string_callback, method_callback, function_info, class_info, method_info,
}

-- The address of the description, the description, the type and the methods given to the engine.
pub record GmClassInfo : Type 0 where
  pub desc : Pointer
  pub class : ClassDesc
  pub gm_type_id : ℕ
  pub gm_methods : List FunctionEntry

-- What a script object of this binding has beside the fields of `ScriptObject`.
pub record GmScriptObject : Type 0 where
  pub class_info : Pointer
  pub gm_table : ℕ
  pub gm_user_object : ℕ

-- The context with what it reaches: the machine, the infos, whose addresses are their positions,
-- whether a logger is set and what went to it, and the script objects.
pub record GmScriptContext (api : GmApi) : Type 0 where
  pub machine : api.State
  pub functions : List FunctionDesc
  pub classes : List GmClassInfo
  pub has_logger : Bool
  pub log : List Bytes
  pub objects : Objects
  pub gm_objects : Pointer → Option GmScriptObject

-- The loop of `FindClassInfo`: the position of the first info of the description.
unfoldable pub find_class_info : Pointer → List GmClassInfo → Option Pointer
find_class_info desc [] = none
find_class_info desc (i ∷ is) =
    if i.desc == desc then some 0 else next_position (find_class_info desc is)

-- The entries of the methods, from method number `i` on.
unfoldable pub method_entries : List ClassMethodDesc → ℕ → Pointer → List FunctionEntry
method_entries [] i info = []
method_entries (m ∷ ms) i info =
    (record { name = m.name; function = method_callback; user_data = method_info info i })
    ∷ method_entries ms (i + 1) info

unfoldable pub make_gm_methods : ClassDesc → Pointer → List FunctionEntry
unfolding method_entries
make_gm_methods desc info =
    method_entries desc.methods 0 info
    ++ (record {
      name = codes "AsString";
      function = to_string_callback;
      user_data = class_info info;
    })
      ∷ (if desc.garbage_collect
          then []
          else (record {
            name = codes "Destroy";
            function = destructor_callback;
            user_data = class_info info;
          })
            ∷ [])

module _ (api : GmApi) where
  open api use {
    State, Call, execute_string, log_entries, log_reset, create_user_type,
    register_library_function, register_type_library, register_user_callbacks,
    begin_global_function,
  }

  unfoldable pub set_logger : Bool → GmScriptContext api → GmScriptContext api
  set_logger logger c = record c { has_logger = logger }

  -- `m_logger->Output(…)`
  unfoldable pub output : Bytes → GmScriptContext api → Outcome (GmScriptContext api)
  output text c =
      if c.has_logger then ok (record c { log = c.log ++ text ∷ [] }) else stop undefined

  -- The loop over the entries of the machine's log.
  unfoldable pub report_errors : List Bytes → GmScriptContext api → Outcome (GmScriptContext api)
  unfolding output sprintf
  report_errors [] c = ok c
  report_errors (message ∷ rest) c = do
    buffer ← sprintf 1024 (message ++ codes "\n")
    c' ← output buffer c
    report_errors rest c'

  unfoldable pub run_string : Bytes → GmScriptContext api → Outcome (Bool × GmScriptContext api)
  unfolding report_errors
  run_string string c =
      let (errors, m) = execute_string string c.machine in
      let c1 = record c { machine = m } in
      if errors == 0 then ok (true, c1) else do
        c2 ← report_errors (log_entries m) c1
        ok (false, record c2 { machine = log_reset c2.machine })

  -- `BeginCall(name)`: the call that is begun, if there is such a function.
  unfoldable pub begin_call : Bytes → GmScriptContext api → Option Call × GmScriptContext api
  begin_call name c =
      let (call, m) = begin_global_function name c.machine in (call, record c { machine = m })

  unfoldable pub register_function : FunctionDesc → GmScriptContext api → Bool × GmScriptContext api
  register_function desc c =
      let entry : FunctionEntry = record {
        name = desc.name;
        function = function_callback;
        user_data = function_info (length c.functions);
      } in
      (
        true,
        record c {
          machine = register_library_function entry c.machine;
          functions = c.functions ++ desc ∷ [];
        },
      )

  -- `RegisterUserClass` of the description at this address.
  unfoldable pub register_user_class :
      Pointer → ClassDesc → GmScriptContext api → Outcome (Bool × GmScriptContext api)
  unfolding make_gm_methods
  register_user_class address desc c = do
    assert (is_some desc.constructor)
    assert (is_some desc.destructor)
    let info = length c.classes
    let (type_id, m1) = create_user_type desc.name c.machine
    let methods = make_gm_methods desc info
    let m2 =
        register_library_function
          (record {
            name = desc.name;
            function = constructor_callback;
            user_data = class_info info;
          })
          m1
    let m3 = register_user_callbacks type_id (register_type_library type_id methods m2)
    let made : GmClassInfo = record {
      desc = address;
      class = desc;
      gm_type_id = type_id;
      gm_methods = methods;
    }
    ok (true, record c { machine = m3; classes = c.classes ++ made ∷ [] })

  -- `GMPrintCallback`
  unfoldable pub gm_print_callback : Bytes → GmScriptContext api → Outcome (GmScriptContext api)
  unfolding output
  gm_print_callback text c = if c.has_logger then output text c else ok c
