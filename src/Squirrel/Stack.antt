-- ===== src/Squirrel/Stack.antt =====
-- multiscript/SquirrelScriptStack.cpp, and the callback of multiscript/SquirrelScriptContext.cpp that
-- runs a registered function.
pub mod Calls
pub mod Frames
pub mod Instances
pub mod Protocol
use multi_script.Prelude.{
  ℕ, ◌+◌, ◌-◌, ◌%◌, ◌^◌, Bool, true, false, Option, none, some, List, [], ◌∷◌, Bytes, length,
  get_elem?, if◌then◌else◌,
}
use multi_script.Outcome.{Outcome, ok, stop, undefined, ◌>>=◌, ◌>>◌, assert}
use multi_script.Interface.Program.{CInt, Pointer, StackMethods, run}
use multi_script.Interface.Shared.{decrement, deref, prefix, Classes}
use multi_script.Interface.Desc.{FunctionDesc, ClassDesc}
use multi_script.Interface.Objects.{new_object, set_object_ptr}
use multi_script.Squirrel.Api.{
  SquirrelApi, from_top, Value, ObjectType, ot_instance, ot_class, ot_userpointer,
}
use multi_script.Squirrel.Context.{SquirrelScriptContext, SquirrelClassInfo, with_vm}
use multi_script.Squirrel.Context.Classes.{find_class_info, register_user_class}

-- `m_numParams` is an `int` that falls with each pop and may pass 0.
pub record SquirrelScriptStack (api : SquirrelApi) : Type 0 where
  pub context : SquirrelScriptContext api
  pub num_pushed : ℕ
  pub num_params : CInt
  pub is_call : Bool

abbrev pub is_instance : ObjectType → Bool
is_instance ot_instance = true
is_instance _ = false

abbrev pub is_class : ObjectType → Bool
is_class ot_class = true
is_class _ = false

abbrev pub is_user_pointer : ObjectType → Bool
is_user_pointer ot_userpointer = true
is_user_pointer _ = false

-- `after - (before - used)`, in the arithmetic of a C `int`.
abbrev pub results_between : ℕ → ℕ → ℕ → CInt
results_between before after used = (after + used + 2 ^ 32 - before) % 2 ^ 32

module _ (api : SquirrelApi) where
  open api use {
    State, sq_gettop, sq_gettype, sq_getinteger, sq_getuserpointer, sq_getinstanceup, sq_pop,
    sq_remove, sq_pushinteger, sq_pushstring, sq_get, sq_createinstance, sq_setinstanceup, sq_call,
  }

  -- The constructor
  unfoldable pub new : SquirrelScriptContext api → Bool → SquirrelScriptStack api
  new c is_call = record {
    context = c;
    num_pushed = 0;
    num_params = if is_call then 0 else (decrement (sq_gettop c.vm));
    is_call = is_call;
  }

  abbrev pub on_vm : SquirrelScriptStack api → State → SquirrelScriptStack api
  on_vm s l = record s { context = with_vm api s.context l }

  unfoldable pub get_num_params : SquirrelScriptStack api → Outcome (CInt × SquirrelScriptStack api)
  get_num_params s = ok (s.num_params, s)

  unfoldable pub pop_int : SquirrelScriptStack api → Outcome (Option CInt × SquirrelScriptStack api)
  pop_int s = elim (sq_getinteger (from_top 1) s.context.vm) [
    | none ↦ ok (none, s)
    | some v ↦
        ok
          (some v, record (on_vm s (sq_pop 1 s.context.vm)) { num_params = decrement s.num_params })
  ]

  unfoldable pub pop_script_object :
      SquirrelScriptStack api → Outcome (Option Pointer × SquirrelScriptStack api)
  pop_script_object s = do
    let l = s.context.vm
    assert (is_instance (sq_gettype (from_top 1) l))
    ok (
      sq_getinstanceup (from_top 1) l,
      record (on_vm s (sq_pop 1 l)) { num_params = decrement s.num_params },
    )

  unfoldable pub push_int :
      CInt → SquirrelScriptStack api → Outcome (Bool × SquirrelScriptStack api)
  push_int v s =
      ok (true, record (on_vm s (sq_pushinteger v s.context.vm)) { num_pushed = s.num_pushed + 1 })

  unfoldable pub push_string :
      Bytes → Option CInt → SquirrelScriptStack api → Outcome (Bool × SquirrelScriptStack api)
  push_string t n s = do
    pushed ← prefix n t
    ok (
      true,
      record (on_vm s (sq_pushstring pushed s.context.vm)) { num_pushed = s.num_pushed + 1 },
    )

  unfoldable pub push_script_object :
      Pointer → SquirrelScriptStack api → Outcome (Bool × SquirrelScriptStack api)
  push_script_object o s = do assert false; ok (false, record s { num_pushed = s.num_pushed + 1 })

  -- The description, whose class is registered now if it was not.
  unfoldable pub ensure_registered :
      Classes → Pointer → SquirrelScriptContext api → Outcome (SquirrelScriptContext api)
  unfolding find_class_info register_user_class
  ensure_registered described desc c = elim (find_class_info desc c.classes) [
    | some i ↦ ok c
    | none ↦ do d ← deref (described desc); (_, c') ← register_user_class api desc d c; ok c'
  ]

  unfoldable pub push_new_script_object :
      Classes
      → Pointer
      → Option Pointer
      → SquirrelScriptStack api
      → Outcome (Option Pointer × SquirrelScriptStack api)
  unfolding ensure_registered new_object set_object_ptr
  push_new_script_object described desc object_ptr s = do
    c ← ensure_registered described desc s.context
    let (o, w) = new_object c.objects
    w' ← set_object_ptr o object_ptr w
    class ← deref (described desc)
    let l1 = sq_get (from_top 2) (sq_pushstring class.name c.vm)
    assert (is_class (sq_gettype (from_top 1) l1))
    let l2 = sq_setinstanceup (from_top 1) o (sq_createinstance (from_top 1) l1)
    ok (
      some o,
      record s {
        context = record c { vm = sq_remove (from_top 2) l2; objects = w' };
        num_pushed = s.num_pushed + 1;
      },
    )

  unfoldable pub methods : Classes → StackMethods (SquirrelScriptStack api)
  unfolding get_num_params pop_int pop_script_object push_int push_string push_script_object
      push_new_script_object
  methods described = record {
    get_num_params = get_num_params;
    pop_int = pop_int;
    pop_script_object = pop_script_object;
    push_int = push_int;
    push_string = push_string;
    push_script_object = push_script_object;
    push_new_script_object = push_new_script_object described;
  }

  unfoldable pub end_call : SquirrelScriptStack api → Outcome (Bool × SquirrelScriptStack api)
  end_call s = do
    assert s.is_call
    let top_before = sq_gettop s.context.vm
    let (called, l) = sq_call (s.num_pushed + 1) true s.context.vm
    if called
        then ok (
          true,
          record (on_vm s l) {
            num_params = results_between top_before (sq_gettop l) (s.num_pushed + 1);
          },
        )
        else ok (false, on_vm s (sq_pop 2 l))

  -- `delete this`: what is left is the context.
  unfoldable pub release_after_call : SquirrelScriptStack api → Outcome (SquirrelScriptContext api)
  release_after_call s = do assert s.is_call; ok (with_vm api s.context (sq_pop 2 s.context.vm))

  -- The first free variable of the running closure, which lies on the top.
  unfoldable pub pop_user_pointer :
      SquirrelScriptContext api → Outcome (Pointer × SquirrelScriptContext api)
  pop_user_pointer c = do
    assert (is_user_pointer (sq_gettype (from_top 1) c.vm))
    info ← deref (sq_getuserpointer (from_top 1) c.vm)
    ok (info, with_vm api c (sq_pop 1 c.vm))

  -- `SquirrelFunctionCallback`: how many of the values on the top of the stack are results.
  unfoldable pub squirrel_function_callback :
      Classes → SquirrelScriptContext api → Outcome (ℕ × SquirrelScriptContext api)
  unfolding pop_user_pointer new methods
  squirrel_function_callback described c = do
    (info, c') ← pop_user_pointer c
    desc ← deref (get_elem? c'.functions info)
    (result, s) ← run (methods described) desc.function (new c' false)
    assert result
    ok (s.num_pushed, s.context)
