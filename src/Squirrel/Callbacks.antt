-- ===== src/Squirrel/Callbacks.antt =====
-- The callbacks of multiscript/SquirrelScriptContext.cpp that serve script objects. Each finds the free
-- variables of its closure on the top of the stack, and returns how many of the values that it
-- leaves there are results.
pub mod Ends
pub mod Invocation
pub mod Serves
use multi_script.Prelude.{
  ℕ, ◌+◌, Bool, true, false, Option, none, some, ◌++◌, Bytes, codes, ◌==◌, if◌then◌else◌, get_elem?,
}
use multi_script.Outcome.{Outcome, ok, ◌>>=◌, ◌>>◌, assert}
use multi_script.Interface.Program.{CInt, Pointer, run}
use multi_script.Interface.Shared.{Classes, deref, is_some}
use multi_script.Interface.Desc.{ClassDesc, ClassMethodDesc}
use multi_script.Interface.Objects.{
  Objects, load, delete, new_object, set_object_ptr, set_locked, invoke_destructor,
}
use multi_script.Interface.Lifecycle.{destroy_object, collect_object}
use multi_script.Interface.Utilities.{sprintf}
use multi_script.Squirrel.Api.{SquirrelApi, from_top, absolute, ObjectType, ot_integer}
use multi_script.Squirrel.Context.{SquirrelScriptContext, SquirrelClassInfo, with_vm}
use multi_script.Squirrel.Stack.{SquirrelScriptStack, new, methods, pop_user_pointer, is_instance}

abbrev pub is_integer : ObjectType → Bool
is_integer ot_integer = true
is_integer _ = false

module _ (api : SquirrelApi) where
  open api use {
    State, sq_gettype, sq_getinteger, sq_getinstanceup, sq_pop, sq_setinstanceup, sq_setreleasehook,
    sq_pushstring,
  }

  -- The class info that the closure carries.
  unfoldable pub pop_class_info :
      SquirrelScriptContext api
      → Outcome ((Pointer × SquirrelClassInfo) × SquirrelScriptContext api)
  unfolding pop_user_pointer
  pop_class_info c = do
    (info, c') ← pop_user_pointer api c
    i ← deref (get_elem? c'.classes info)
    ok ((info, i), c')

  -- The script object behind the instance that the method was called on, which must not have been
  -- destroyed.
  unfoldable pub this_object : SquirrelScriptContext api → Outcome Pointer
  unfolding load
  this_object c = do
    assert (is_instance (sq_gettype (absolute 1) c.vm))
    o ← deref (sq_getinstanceup (absolute 1) c.vm)
    x ← load o c.objects
    assert (is_some x.object_ptr)
    ok o

  -- `SquirrelClassConstructorCallback`
  unfoldable pub squirrel_class_constructor_callback :
      Classes → SquirrelScriptContext api → Outcome (ℕ × SquirrelScriptContext api)
  unfolding pop_class_info new_object set_object_ptr new methods
  squirrel_class_constructor_callback described c = do
    ((info, i), c1) ← pop_class_info c
    let (o, w) = new_object c1.objects
    let c2 = record c1 {
      objects = w;
      class_info = λ q. if o == q then some info else c1.class_info q;
    }
    constructor ← deref i.class.constructor
    (object_ptr, s) ← run (methods api described) (constructor o) (new api c2 false)
    w' ← set_object_ptr o object_ptr s.context.objects
    assert (is_some object_ptr)
    assert (s.num_pushed == 0)
    let l1 = sq_setinstanceup (from_top 1) o s.context.vm
    ok (0, record s.context { vm = sq_setreleasehook (from_top 1) l1; objects = w' })

  -- `SquirrelClassDestructorCallback`
  unfoldable pub squirrel_class_destructor_callback :
      SquirrelScriptContext api → Outcome (ℕ × SquirrelScriptContext api)
  unfolding pop_class_info this_object destroy_object
  squirrel_class_destructor_callback c = do
    ((_, i), c') ← pop_class_info c
    o ← this_object c'
    destructor ← deref i.class.destructor
    w ← destroy_object destructor o c'.objects
    ok (0, record c' { objects = w })

  -- `SquirrelClassGCCallback`, the release hook of an instance with this user pointer; the class info
  -- is only read for an object that was not destroyed.
  unfoldable pub squirrel_class_gc_callback :
      Pointer → SquirrelScriptContext api → Outcome (ℕ × SquirrelScriptContext api)
  unfolding load delete collect_object
  squirrel_class_gc_callback o c = do
    x ← load o c.objects
    elim x.object_ptr [
      | none ↦ do w ← delete o c.objects; ok (0, record c { objects = w })
      | some p ↦ do
        info ← deref (c.class_info o)
        i ← deref (get_elem? c.classes info)
        destructor ← deref i.class.destructor
        w ← collect_object i.class.garbage_collect destructor o c.objects
        ok (0, record c { objects = w })
    ]

  -- The text for a script object: the user's, or the name of the class in brackets.
  abbrev pub text_of : ClassDesc → Pointer → Outcome Bytes
  text_of desc o = elim desc.to_string_method [
    | none ↦ sprintf 256 (codes "[" ++ desc.name ++ codes "]")
    | some to_string ↦ let (result, text) = to_string o 256 in assert result >> ok text
  ]

  -- `SquirrelClassToStringMethodCallback`
  unfoldable pub squirrel_class_to_string_method_callback :
      SquirrelScriptContext api → Outcome (ℕ × SquirrelScriptContext api)
  unfolding pop_class_info this_object sprintf
  squirrel_class_to_string_method_callback c = do
    ((_, i), c') ← pop_class_info c
    o ← this_object c'
    text ← text_of i.class o
    ok (1, with_vm api c' (sq_pushstring text c'.vm))

  -- `SquirrelClassMethodCallback`
  unfoldable pub squirrel_class_method_callback :
      Classes → SquirrelScriptContext api → Outcome (ℕ × SquirrelScriptContext api)
  unfolding pop_class_info this_object new methods
  squirrel_class_method_callback described c = do
    ((_, i), c1) ← pop_class_info c
    assert (is_integer (sq_gettype (from_top 1) c1.vm))
    index ← deref (sq_getinteger (from_top 1) c1.vm)
    let c2 = with_vm api c1 (sq_pop 1 c1.vm)
    o ← this_object c2
    m ← deref (get_elem? i.class.methods index)
    (result, s) ← run (methods api described) (m.method o) (new api c2 false)
    assert result
    ok (s.num_pushed, s.context)
