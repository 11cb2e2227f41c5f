-- ===== src/Squirrel/Context.antt =====
-- multiscript/SquirrelScriptContext.cpp: the context, the execution of text, and functions.
pub mod Classes
use multi_script.Prelude.{
  ℕ, ◌+◌, Bool, true, false, Option, none, some, List, [], ◌∷◌, ◌++◌, Bytes, ◌==◌, if◌then◌else◌,
  length, not,
}
use multi_script.Outcome.{Outcome, ok, stop, undefined, ◌>>=◌}
use multi_script.Interface.Program.{Pointer}
use multi_script.Interface.Desc.{FunctionDesc, ClassDesc}
use multi_script.Interface.Objects.{Objects}
use multi_script.Interface.Utilities.{sprintf}
use multi_script.Squirrel.Api.{
  SquirrelApi, function_callback, from_top, ObjectType, ot_closure, ot_nativeclosure,
}

-- The address of the description, and the description.
pub record SquirrelClassInfo : Type 0 where
  pub desc : Pointer
  pub class : ClassDesc

-- The context with what it reaches: the machine, the infos, whose addresses are their positions,
-- whether a logger is set and what went to it, the script objects, and the `m_classInfo` of those
-- that have one. `m_currentStringProgram` is the rest of the text, or `none` for the null pointer.
pub record SquirrelScriptContext (api : SquirrelApi) : Type 0 where
  pub vm : api.State
  pub functions : List FunctionDesc
  pub classes : List SquirrelClassInfo
  pub current_string_program : Option Bytes
  pub has_logger : Bool
  pub log : List Bytes
  pub objects : Objects
  pub class_info : Pointer → Option Pointer

abbrev pub is_function : ObjectType → Bool
is_function ot_closure = true
is_function ot_nativeclosure = true
is_function _ = false

module _ (api : SquirrelApi) where
  open api use {
    State, sq_pop, sq_pushroottable, sq_pushstring, sq_pushuserpointer, sq_newclosure, sq_get,
    sq_createslot, sq_gettype, sq_compile, sq_call,
  }

  abbrev pub with_vm : SquirrelScriptContext api → State → SquirrelScriptContext api
  with_vm c s = record c { vm = s }

  unfoldable pub set_logger : Bool → SquirrelScriptContext api → SquirrelScriptContext api
  set_logger logger c = record c { has_logger = logger }

  -- `sq_compile` reads the text through the read callback.
  unfoldable pub execute_string :
      Bytes → SquirrelScriptContext api → Bool × SquirrelScriptContext api
  execute_string string c =
      let (compiled, s1) = sq_compile string c.vm in
      let c1 = record c { vm = s1; current_string_program = some string } in
      if not compiled
      then (false, c1)
      else (let (called, s2) = sq_call 1 false (sq_pushroottable s1) in
          (called, record c1 { vm = sq_pop 1 s2 }))

  -- `BeginCall(name)`: whether there is such a function, which then lies below the root table.
  unfoldable pub begin_call : Bytes → SquirrelScriptContext api → Bool × SquirrelScriptContext api
  begin_call name c =
      let s = sq_get (from_top 2) (sq_pushstring name (sq_pushroottable c.vm)) in
      if not (is_function (sq_gettype (from_top 1) s))
      then (false, with_vm c (sq_pop 1 s))
      else (true, with_vm c (sq_pushroottable s))

  unfoldable pub register_function :
      FunctionDesc → SquirrelScriptContext api → Bool × SquirrelScriptContext api
  register_function desc c =
      let info = length c.functions in
      let s1 = sq_pushstring desc.name (sq_pushroottable c.vm) in
      let s2 = sq_newclosure function_callback 1 (sq_pushuserpointer info s1) in
      let s3 = sq_pop 1 (sq_createslot (from_top 3) s2) in
      (true, record c { vm = s3; functions = c.functions ++ desc ∷ [] })

  -- `SquirrelPrintCallback` of a text that is already put together
  unfoldable pub squirrel_print_callback :
      Bytes → SquirrelScriptContext api → Outcome (SquirrelScriptContext api)
  unfolding sprintf
  squirrel_print_callback text c =
      if not c.has_logger
      then ok c
      else do buffer ← sprintf 1024 text; ok (record c { log = c.log ++ buffer ∷ [] })

  -- `SquirrelReadCallback`: the next character, or the zero that ends the text.
  unfoldable pub squirrel_read_callback :
      SquirrelScriptContext api → Outcome (ℕ × SquirrelScriptContext api)
  squirrel_read_callback c = elim c.current_string_program [
    | none ↦ stop undefined
    | some [] ↦ ok (0, record c { current_string_program = none })
    | some (b ∷ bs) ↦
        if b == 0
        then ok (0, record c { current_string_program = none })
        else ok (b, record c { current_string_program = some bs })
  ]
