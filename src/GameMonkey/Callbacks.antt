-- ===== src/GameMonkey/Callbacks.antt =====
-- The callbacks of multiscript/GMScriptContext.cpp that serve script objects.
pub mod Ends
pub mod Serves
use multi_script.Prelude.{
  ℕ, ◌+◌, Bool, true, false, Option, none, some, ◌++◌, Bytes, codes, get_elem?, length, ltb,
}
use multi_script.Outcome.{Outcome, ok, stop, assertion, undefined, ◌>>=◌, ◌>>◌, assert, require}
use multi_script.Interface.Program.{Pointer, run}
use multi_script.Interface.Shared.{Classes, deref, is_some}
use multi_script.Interface.Desc.{ClassDesc, ClassMethodDesc}
use multi_script.Interface.Objects.{
  Objects, load, delete, set_object_ptr, set_locked, invoke_destructor,
}
use multi_script.Interface.Lifecycle.{destroy_object, collect_object}
use multi_script.Interface.Utilities.{sprintf}
use multi_script.GameMonkey.Api.{GmApi, UserData, class_info, method_info}
use multi_script.GameMonkey.Context.{GmScriptContext, GmClassInfo}
use multi_script.GameMonkey.Stack.{GmScriptStack, new, methods, push_object}

abbrev pub asserted {ℓ} : {A : Type ℓ} → Option A → Outcome A
asserted none = stop assertion
asserted (some a) = ok a

module _ (api : GmApi) where
  open api use {State, this_user, thread_push_new_string}

  -- `scriptObject->m_classInfo`
  unfoldable pub info_of : Pointer → GmScriptContext api → Outcome GmClassInfo
  info_of o c = do x ← deref (c.gm_objects o); deref (get_elem? c.classes x.class_info)

  -- A user object that was not destroyed.
  unfoldable pub live_object : Pointer → GmScriptContext api → Outcome (Unit {0})
  unfolding load
  live_object o c = do x ← load o c.objects; assert (is_some x.object_ptr)

  -- `GMClassConstructorCallback`, for the function object of a class
  unfoldable pub gm_class_constructor_callback :
      Classes → UserData → GmScriptContext api → Outcome (GmScriptContext api)
  unfolding push_object set_object_ptr new methods
  gm_class_constructor_callback described (class_info info) c = do
    i ← deref (get_elem? c.classes info)
    let (o, c1) = push_object api info i c
    constructor ← deref i.class.constructor
    (object_ptr, s) ← run (methods api described) (constructor o) (new api c1 none)
    w ← set_object_ptr o object_ptr s.context.objects
    assert (is_some object_ptr)
    ok (record s.context { objects = w })
  gm_class_constructor_callback described _ c = stop undefined

  -- `GMClassDestructorCallback`
  unfoldable pub gm_class_destructor_callback : GmScriptContext api → Outcome (GmScriptContext api)
  unfolding info_of destroy_object
  gm_class_destructor_callback c = do
    o ← asserted (this_user c.machine)
    i ← info_of o c
    destructor ← deref i.class.destructor
    w ← destroy_object destructor o c.objects
    ok (record c { objects = w })

  -- `GMClassGCCallback` for a user object with this user pointer; the class info is only read for an
  -- object that was not destroyed.
  unfoldable pub gm_class_gc_callback :
      Option Pointer → GmScriptContext api → Outcome (GmScriptContext api)
  unfolding info_of load delete collect_object
  gm_class_gc_callback user c = do
    o ← asserted user
    x ← load o c.objects
    elim x.object_ptr [
      | none ↦ do w ← delete o c.objects; ok (record c { objects = w })
      | some p ↦ do
        i ← info_of o c
        destructor ← deref i.class.destructor
        w ← collect_object i.class.garbage_collect destructor o c.objects
        ok (record c { objects = w })
    ]

  -- `GMClassTraceCallback`: the work that was done.
  unfoldable pub gm_class_trace_callback : ℕ → Bool × ℕ
  gm_class_trace_callback work_done = (true, work_done + 1)

  -- The user's text for an object in a buffer of this size, or the name of the class in brackets,
  -- which is written as if the buffer had 256 bytes.
  unfoldable pub text_in : ClassDesc → Pointer → ℕ → Outcome Bytes
  unfolding sprintf
  text_in desc o buffer_size = elim desc.to_string_method [
    | none ↦ do
      text ← sprintf 256 (codes "[" ++ desc.name ++ codes "]")
      require (ltb (length text) buffer_size)
      ok text
    | some to_string ↦ let (result, text) = to_string o buffer_size in assert result >> ok text
  ]

  -- `GMClassToStringMethodCallback`, which pushes the whole buffer.
  unfoldable pub gm_class_to_string_method_callback :
      GmScriptContext api → Outcome (GmScriptContext api)
  unfolding live_object info_of text_in
  gm_class_to_string_method_callback c = do
    o ← deref (this_user c.machine)
    live_object o c
    i ← info_of o c
    text ← text_in i.class o 256
    ok (record c { machine = thread_push_new_string text (some 256) c.machine })

  -- `GMClassToStringCallback`
  unfoldable pub gm_class_to_string_callback :
      Option Pointer → ℕ → GmScriptContext api → Outcome Bytes
  unfolding live_object info_of text_in
  gm_class_to_string_callback user buffer_size c = do
    o ← deref user
    live_object o c
    i ← info_of o c
    text_in i.class o buffer_size

  -- `GMClassMethodCallback`, for the function object of a method
  unfoldable pub gm_class_method_callback :
      Classes → UserData → GmScriptContext api → Outcome (GmScriptContext api)
  unfolding live_object new methods
  gm_class_method_callback described (method_info info index) c = do
    o ← deref (this_user c.machine)
    live_object o c
    i ← deref (get_elem? c.classes info)
    m ← deref (get_elem? i.class.methods index)
    (result, s) ← run (methods api described) (m.method o) (new api c none)
    assert result
    ok s.context
  gm_class_method_callback described _ c = stop undefined
