-- ===== src/Lua/Callbacks.antt =====
-- The callbacks of multiscript/LuaScriptContext.cpp that serve script objects. Each is given the
-- upvalues of the running closure, and returns how many of the values on the top are results.
pub mod Ends
use multi_script.Prelude.{
  ℕ, ◌+◌, Bool, true, false, Option, none, some, List, [], ◌∷◌, ◌++◌, Bytes, codes, ◌==◌,
  if◌then◌else◌, get_elem?, take,
}
use multi_script.Interface.Shared.{deref, Classes, is_some}
use multi_script.Outcome.{Outcome, ok, stop, assertion, undefined, ◌>>=◌, ◌>>◌, assert, require}
use multi_script.Interface.Program.{CInt, Pointer, run}
use multi_script.Interface.Desc.{ClassDesc, ClassMethodDesc}
use multi_script.Interface.Objects.{
  Objects, Teardown, load, delete, new_object, set_object_ptr, set_locked, invoke_destructor,
}
use multi_script.Interface.Lifecycle.{destroy_object, collect_object}
use multi_script.Interface.Utilities.{sprintf}
use multi_script.Lua.Api.{LuaApi, Value, light, number, from_top, absolute}
use multi_script.Lua.Context.{LuaScriptContext, LuaClassInfo}
use multi_script.Lua.Stack.{LuaScriptStack, new, methods, light_address, script_object_at}

-- The second upvalue of a method's closure, which must be a number.
abbrev pub method_index : Option Value → Outcome CInt
method_index (some (number i)) = ok i
method_index _ = stop assertion

-- `MultiScriptSprintf(buffer, 1 << 8, "[%s]", name)`
abbrev pub default_text : Bytes → Outcome Bytes
default_text name = sprintf 256 (codes "[" ++ name ++ codes "]")

module _ (api : LuaApi) where
  open api use {
    State, lua_isuserdata, lua_touserdata, lua_remove, lua_istable, lua_newuserdata, store_block,
    lua_getmetatable, lua_setmetatable, lua_pushstring,
  }

  -- The class info that a light upvalue leads to.
  abbrev pub upvalue_info : Value → LuaScriptContext api → Outcome LuaClassInfo
  upvalue_info upvalue c = do info ← light_address upvalue; deref (get_elem? c.classes info)

  -- `PopObjectData`
  unfoldable pub pop_object_data : LuaScriptContext api → Outcome (Pointer × LuaScriptContext api)
  pop_object_data c = do
    assert (lua_isuserdata (absolute 1) c.lua)
    o ← script_object_at api (lua_touserdata (absolute 1) c.lua) c.lua
    ok (o, record c { lua = lua_remove (absolute 1) c.lua })

  -- `LuaClassConstructorCallback`
  unfoldable pub lua_class_constructor_callback :
      Classes → Value → LuaScriptContext api → Outcome (ℕ × LuaScriptContext api)
  unfolding new_object set_object_ptr new methods
  lua_class_constructor_callback described upvalue c = do
    info ← upvalue_info upvalue c
    assert (lua_istable (absolute 1) c.lua)
    let (o, w) = new_object c.objects
    let c1 = record c { lua = lua_remove (absolute 1) c.lua; objects = w }
    constructor ← deref info.class.constructor
    (object_ptr, s) ← run (methods api described) (constructor o) (new api c1 false)
    w' ← set_object_ptr o object_ptr s.context.objects
    assert (is_some object_ptr)
    assert (s.num_pushed == 0)
    let (b, l1) = lua_newuserdata s.context.lua
    let l2 = lua_getmetatable info.class.name (store_block b o l1)
    assert (lua_istable (from_top 1) l2)
    ok (1, record s.context { lua = lua_setmetatable (from_top 2) l2; objects = w' })

  -- `LuaClassDestructorCallback`
  unfoldable pub lua_class_destructor_callback :
      Value → LuaScriptContext api → Outcome (ℕ × LuaScriptContext api)
  unfolding pop_object_data destroy_object
  lua_class_destructor_callback upvalue c = do
    info ← upvalue_info upvalue c
    (o, c') ← pop_object_data c
    destructor ← deref info.class.destructor
    w ← destroy_object destructor o c'.objects
    ok (0, record c' { objects = w })

  -- `LuaClassGCCallback`; the class info is only read for an object that was not destroyed.
  unfoldable pub lua_class_gc_callback :
      Value → LuaScriptContext api → Outcome (ℕ × LuaScriptContext api)
  unfolding pop_object_data load delete collect_object
  lua_class_gc_callback upvalue c = do
    (o, c') ← pop_object_data c
    x ← load o c'.objects
    elim x.object_ptr [
      | none ↦ do w ← delete o c'.objects; ok (0, record c' { objects = w })
      | some p ↦ do
        info ← upvalue_info upvalue c'
        destructor ← deref info.class.destructor
        w ← collect_object info.class.garbage_collect destructor o c'.objects
        ok (0, record c' { objects = w })
    ]

  -- The text for a script object: the user's, or the name of the class in brackets.
  abbrev pub text_of : ClassDesc → Pointer → Outcome Bytes
  text_of desc o = elim desc.to_string_method [
    | none ↦ default_text desc.name
    | some to_string ↦ let (result, text) = to_string o 256 in assert result >> ok text
  ]

  -- `LuaClassToStringMethodCallback`
  unfoldable pub lua_class_to_string_method_callback :
      Value → LuaScriptContext api → Outcome (ℕ × LuaScriptContext api)
  unfolding pop_object_data sprintf
  lua_class_to_string_method_callback upvalue c = do
    info ← upvalue_info upvalue c
    (o, c') ← pop_object_data c
    text ← text_of info.class o
    ok (1, record c' { lua = lua_pushstring text c'.lua })

  -- `LuaClassMethodCallback`
  unfoldable pub lua_class_method_callback :
      Classes → Value → Option Value → LuaScriptContext api → Outcome (ℕ × LuaScriptContext api)
  unfolding pop_object_data new methods
  lua_class_method_callback described upvalue second c = do
    info ← upvalue_info upvalue c
    index ← method_index second
    (o, c') ← pop_object_data c
    m ← deref (get_elem? info.class.methods index)
    (result, s) ← run (methods api described) (m.method o) (new api c' false)
    assert result
    ok (s.num_pushed, s.context)
