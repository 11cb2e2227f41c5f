-- ===== src/Lua/Stack.antt =====
-- multiscript/LuaScriptStack.cpp
pub mod Calls
pub mod Functions
pub mod Protocol
use multi_script.Prelude.{
  ℕ, ◌+◌, ◌-◌, ◌%◌, ◌^◌, Bool, true, false, Option, none, some, List, [], ◌∷◌, ◌++◌, Bytes, ◌==◌,
  if◌then◌else◌, length, get_elem?, take, leb, not,
}
use multi_script.Interface.Shared.{decrement, deref, prefix, Classes}
use multi_script.Outcome.{Outcome, ok, stop, assertion, undefined, ◌>>=◌, ◌>>◌, assert, require}
use multi_script.Interface.Program.{CInt, Pointer, StackMethods, run}
use multi_script.Interface.Desc.{FunctionDesc, ClassDesc}
use multi_script.Interface.Objects.{Objects, new_object, set_object_ptr}
use multi_script.Lua.Api.{LuaApi, from_top, Value, light, number}
use multi_script.Lua.Context.{LuaScriptContext, LuaClassInfo, lua_call}
use multi_script.Lua.Context.Classes.{find_class_info, register_user_class}

-- `m_numParams` is an `int` that falls with each pop and may pass 0.
pub record LuaScriptStack (api : LuaApi) : Type 0 where
  pub context : LuaScriptContext api
  pub num_pushed : ℕ
  pub num_params : CInt
  pub is_call : Bool

-- An upvalue that must be a light userdata.
abbrev pub light_address : Value → Outcome Pointer
light_address (light p) = ok p
light_address _ = stop assertion

module _ (api : LuaApi) where
  open api use {
    State, block, lua_gettop, lua_isnumber, lua_tointeger, lua_isuserdata, lua_touserdata, lua_pop,
    lua_pushinteger, lua_pushstring, lua_newuserdata, store_block, lua_getmetatable, lua_istable,
    lua_setmetatable,
  }

  -- The constructor
  unfoldable pub new : LuaScriptContext api → Bool → LuaScriptStack api
  new c is_call = record {
    context = c;
    num_pushed = 0;
    num_params = if is_call then 0 else lua_gettop c.lua;
    is_call = is_call;
  }

  abbrev pub with_lua : LuaScriptStack api → State → LuaScriptStack api
  with_lua s l = record s { context = record s.context { lua = l } }

  unfoldable pub get_num_params : LuaScriptStack api → Outcome (CInt × LuaScriptStack api)
  get_num_params s = ok (s.num_params, s)

  unfoldable pub pop_int : LuaScriptStack api → Outcome (Option CInt × LuaScriptStack api)
  pop_int s =
      let l = s.context.lua in
      if lua_isnumber (from_top 1) l
      then ok (
        some (lua_tointeger (from_top 1) l),
        record (with_lua s (lua_pop 1 l)) { num_params = decrement s.num_params },
      )
      else ok (none, s)

  -- `*scriptObjectPtr` behind the address of a userdata, which the assertion wants not null.
  abbrev pub script_object_at : Option Pointer → State → Outcome Pointer
  script_object_at none l = stop assertion
  script_object_at (some b) l = elim (block l b) [ none ↦ stop assertion | some o ↦ ok o ]

  unfoldable pub pop_script_object :
      LuaScriptStack api → Outcome (Option Pointer × LuaScriptStack api)
  pop_script_object s =
      let l = s.context.lua in
      if not (lua_isuserdata (from_top 1) l) then ok (none, s) else do
        o ← script_object_at (lua_touserdata (from_top 1) l) l
        ok (some o, record (with_lua s (lua_pop 1 l)) { num_params = decrement s.num_params })

  unfoldable pub push_int : CInt → LuaScriptStack api → Outcome (Bool × LuaScriptStack api)
  push_int v s = ok (
    true,
    record (with_lua s (lua_pushinteger v s.context.lua)) { num_pushed = s.num_pushed + 1 },
  )

  -- With a length, `lua_pushlstring` takes that many bytes, which the text must have.
  unfoldable pub push_string :
      Bytes → Option CInt → LuaScriptStack api → Outcome (Bool × LuaScriptStack api)
  push_string t n s = do
    pushed ← prefix n t
    ok (
      true,
      record (with_lua s (lua_pushstring pushed s.context.lua)) { num_pushed = s.num_pushed + 1 },
    )

  unfoldable pub push_script_object :
      Pointer → LuaScriptStack api → Outcome (Bool × LuaScriptStack api)
  push_script_object o s = do assert false; ok (false, record s { num_pushed = s.num_pushed + 1 })

  -- The info of a description, registered now if it was not.
  unfoldable pub class_info :
      Classes → Pointer → LuaScriptContext api → Outcome (LuaClassInfo × LuaScriptContext api)
  unfolding find_class_info register_user_class
  class_info described desc c = do
    c' ← (elim (find_class_info desc c.classes) [
      | some i ↦ ok c
      | none ↦ do d ← deref (described desc); (_, c') ← register_user_class api desc d c; ok c'
    ])
    i ← deref (find_class_info desc c'.classes)
    info ← deref (get_elem? c'.classes i)
    ok (info, c')

  unfoldable pub push_new_script_object :
      Classes
      → Pointer
      → Option Pointer
      → LuaScriptStack api
      → Outcome (Option Pointer × LuaScriptStack api)
  unfolding class_info new_object set_object_ptr
  push_new_script_object described desc object_ptr s = do
    (info, c) ← class_info described desc s.context
    let (o, w) = new_object c.objects
    w' ← set_object_ptr o object_ptr w
    let (b, l1) = lua_newuserdata c.lua
    let l2 = lua_getmetatable info.class.name (store_block b o l1)
    assert (lua_istable (from_top 1) l2)
    let l3 = lua_setmetatable (from_top 2) l2
    ok (
      some o,
      record s { context = record c { lua = l3; objects = w' }; num_pushed = s.num_pushed + 1 },
    )

  unfoldable pub methods : Classes → StackMethods (LuaScriptStack api)
  unfolding get_num_params pop_int pop_script_object push_int push_string push_script_object
      push_new_script_object
  methods described = record {
    get_num_params = get_num_params;
    pop_int = pop_int;
    pop_script_object = pop_script_object;
    push_int = push_int;
    push_string = push_string;
    push_script_object = push_script_object;
    push_new_script_object = push_new_script_object described;
  }

  unfoldable pub end_call : LuaScriptStack api → Outcome (Bool × LuaScriptStack api)
  unfolding lua_call
  end_call s = do
    assert s.is_call
    (called, c) ← lua_call api s.num_pushed s.context
    if called
        then ok (true, record s { context = c; num_params = lua_gettop c.lua })
        else ok (false, record s { context = c })

  -- `delete this`: what is left is the context.
  unfoldable pub release_after_call : LuaScriptStack api → Outcome (LuaScriptContext api)
  release_after_call s = do assert s.is_call; ok s.context

  -- `LuaFunctionCallback` with the first upvalue of the running closure: how many of the values on
  -- the top of the stack are results.
  unfoldable pub lua_function_callback :
      Classes → Value → LuaScriptContext api → Outcome (ℕ × LuaScriptContext api)
  unfolding new methods
  lua_function_callback described upvalue c = do
    info ← light_address upvalue
    desc ← deref (get_elem? c.functions info)
    (result, s) ← run (methods described) desc.function (new c false)
    assert result
    ok (s.num_pushed, s.context)
