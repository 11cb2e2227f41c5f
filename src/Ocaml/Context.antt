-- ===== src/Ocaml/Context.antt =====
-- multiscript/OcamlScriptContext.cpp: registration, the callbacks of functions, and calls by name.
pub mod Registered
pub mod Execute
pub mod Served
use multi_script.Prelude.{
  ℕ, zero, suc, ◌+◌, Bool, true, false, Option, none, some, List, [], ◌∷◌, ◌++◌, Bytes, ◌==◌,
  if◌then◌else◌, length, get_elem?, not,
}
use multi_script.Outcome.{Outcome, ok, stop, assertion, undefined, ◌>>=◌, ◌>>◌, assert}
use multi_script.Interface.Program.{CInt, Pointer, run}
use multi_script.Interface.Shared.{deref, is_some, next_position}
use multi_script.Interface.Desc.{FunctionDesc, ClassDesc}
use multi_script.Ocaml.Words.{Word}
use multi_script.Ocaml.Stack.{OcamlScriptStack, new, methods}
use multi_script.Runtime.Dynlink.{Sources, custom_caml_register_c_function}

-- The C functions that the runtime calls as primitives: those of this binding, and others.
pub data Primitive : Type 0 where
  callback_0_args callback_1_arg callback_2_args : Primitive
  other : ℕ → Primitive

pub record OcamlClassInfo : Type 0 where
  pub desc : Pointer
  pub class : ClassDesc

-- The context with the runtime's sources of primitives; the address of a function info is its
-- position.
pub record OcamlScriptContext : Type 0 where
  pub sources : Sources Primitive Pointer
  pub functions : List FunctionDesc
  pub classes : List OcamlClassInfo
  pub dirty_faked_dll : Bool
  pub has_logger : Bool
  pub log : List Bytes

unfoldable pub set_logger : Bool → OcamlScriptContext → OcamlScriptContext
set_logger logger c = record c { has_logger = logger }

-- The `switch` of `RegisterFunction`, whose default returns `false`.
unfoldable pub callback_of : CInt → Option Primitive
callback_of n =
    if n == 0
    then some callback_0_args
    else (if n == 1 then some callback_1_arg else (if n == 2 then some callback_2_args else none))

-- One `case` of the `switch`, or its default.
unfoldable pub register_with :
    (ℕ → Bool)
    → (ℕ → Option ℕ)
    → FunctionDesc
    → OcamlScriptContext
    → Option Primitive
    → Outcome (Bool × OcamlScriptContext)
unfolding custom_caml_register_c_function
register_with granted usable desc c none = ok (false, c)
register_with granted usable desc c (some prim) = do
  (result, src) ←
      custom_caml_register_c_function granted usable desc.name prim (some (length c.functions))
        c.sources
  assert (not (result == 0))
  ok (
    true,
    record c { sources = src; functions = c.functions ++ desc ∷ []; dirty_faked_dll = true },
  )

unfoldable pub register_function :
    (ℕ → Bool)
    → (ℕ → Option ℕ)
    → FunctionDesc
    → OcamlScriptContext
    → Outcome (Bool × OcamlScriptContext)
unfolding callback_of register_with
register_function granted usable desc c =
    register_with granted usable desc c (callback_of desc.num_params)

unfoldable pub register_user_class :
    Pointer → ClassDesc → OcamlScriptContext → Outcome (Bool × OcamlScriptContext)
register_user_class address desc c = do
  assert (is_some desc.constructor)
  assert (is_some desc.destructor)
  ok (true, record c { classes = c.classes ++ (record { desc = address; class = desc }) ∷ [] })

-- The loop of `FindClassInfo`: the position of the first info of the description.
unfoldable pub find_class_info : Pointer → List OcamlClassInfo → Option Pointer
find_class_info desc [] = none
find_class_info desc (i ∷ is) =
    if i.desc == desc then some 0 else next_position (find_class_info desc is)

-- `BeginCall(name)`, with what `caml_named_value` finds: a stack for the closure, if there is one.
unfoldable pub begin_call : Option Word → Option OcamlScriptStack
unfolding new
begin_call none = none
begin_call (some closure) = some (new (some closure) [])

-- `OcamlFatalErrorCallback`
unfoldable pub ocaml_fatal_error_callback : OcamlScriptContext → Outcome (Unit {0})
ocaml_fatal_error_callback c = if not c.has_logger then ok tt else assert false

-- What the three callbacks share: the user data of the running primitive leads to the description,
-- which must have this number of parameters.
unfoldable pub serve_callback :
    CInt → List Word → Option Pointer → OcamlScriptContext → Outcome Word
unfolding new methods
serve_callback count values user_data c = do
  info ← deref user_data
  desc ← deref (get_elem? c.functions info)
  assert (desc.num_params == count)
  (result, s) ← run methods desc.function (new none values)
  assert result
  ok s.result

-- `OcamlFunctionCallback0Args`
unfoldable pub ocaml_function_callback_0_args : Option Pointer → OcamlScriptContext → Outcome Word
unfolding serve_callback
ocaml_function_callback_0_args user_data c = serve_callback 0 [] user_data c

-- `OcamlFunctionCallback1Arg`
unfoldable pub ocaml_function_callback_1_arg :
    Word → Option Pointer → OcamlScriptContext → Outcome Word
unfolding serve_callback
ocaml_function_callback_1_arg a0 user_data c = serve_callback 1 (a0 ∷ []) user_data c

-- `OcamlFunctionCallback2Args`
unfoldable pub ocaml_function_callback_2_args :
    Word → Word → Option Pointer → OcamlScriptContext → Outcome Word
unfolding serve_callback
ocaml_function_callback_2_args a0 a1 user_data c = serve_callback 2 (a0 ∷ a1 ∷ []) user_data c

-- `C_CALL1` and `C_CALL2` of a primitive of this binding. A function of no parameters is called on
-- unit, which it does not take.
unfoldable pub call_primitive :
    Primitive → List Word → Option Pointer → OcamlScriptContext → Outcome Word
unfolding ocaml_function_callback_0_args ocaml_function_callback_1_arg
    ocaml_function_callback_2_args
call_primitive callback_0_args (unit ∷ []) user_data c = ocaml_function_callback_0_args user_data c
call_primitive callback_1_arg (a0 ∷ []) user_data c = ocaml_function_callback_1_arg a0 user_data c
call_primitive callback_2_args (a0 ∷ a1 ∷ []) user_data c =
    ocaml_function_callback_2_args a0 a1 user_data c
call_primitive _ _ user_data c = stop undefined
