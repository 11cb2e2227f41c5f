-- ===== src/Lua/Context/Classes.antt =====
-- `RegisterUserClass` and `FindClassInfo` of multiscript/LuaScriptContext.cpp.
use multi_script.Prelude.{
  ℕ, ◌+◌, Bool, true, Option, none, some, List, [], ◌∷◌, ◌++◌, Bytes, codes, ◌==◌, if◌then◌else◌,
  length,
}
use multi_script.Interface.Shared.{is_some, next_position}
use multi_script.Outcome.{Outcome, ok, ◌>>◌, assert}
use multi_script.Interface.Program.{Pointer}
use multi_script.Interface.Desc.{ClassDesc, ClassMethodDesc}
use multi_script.Lua.Api.{
  LuaApi, Handler, to_string_callback, gc_callback, destructor_callback, constructor_callback,
  method_callback, Index, absolute, globals,
}
use multi_script.Lua.Context.{LuaScriptContext, LuaClassInfo}

-- The loop of `FindClassInfo`: the position of the first info of the description.
unfoldable pub find_class_info : Pointer → List LuaClassInfo → Option Pointer
find_class_info desc [] = none
find_class_info desc (i ∷ is) =
    if i.desc == desc then some 0 else next_position (find_class_info desc is)

module _ (api : LuaApi) where
  open api use {
    State, lua_gettop, lua_pushstring, lua_pushvalue, lua_pushinteger, lua_pushlightuserdata,
    lua_pushcclosure, lua_newtable, lua_settable, lua_newmetatable, lua_setmetatable, lua_pop,
  }

  -- Sets `t[key]` to a handler closed over the class info.
  abbrev pub set_handler : Bytes → Handler → Pointer → Index → State → State
  set_handler key handler info t l =
      lua_settable t
        (lua_pushcclosure handler 1 (lua_pushlightuserdata info (lua_pushstring key l)))

  -- The loop that fills the method table, from method number `i` on.
  unfoldable pub set_methods : List ClassMethodDesc → ℕ → Pointer → Index → State → State
  set_methods [] i info t l = l
  set_methods (m ∷ ms) i info t l = set_methods ms (i + 1) info t (
      lua_settable t (
        lua_pushcclosure method_callback 2
          (lua_pushinteger i (lua_pushlightuserdata info (lua_pushstring m.name l)))))

  -- The tables of a class, from the new method table to the `lua_pop` that drops both.
  unfoldable pub make_tables : ClassDesc → Pointer → State → State
  unfolding set_methods
  make_tables desc info l0 =
      let l1 = lua_newtable l0 in
      let methods = absolute (lua_gettop l1) in
      let l2 = lua_newmetatable desc.name l1 in
      let metatable = absolute (lua_gettop l2) in
      let l3 = lua_settable globals (lua_pushvalue methods (lua_pushstring desc.name l2)) in
      let l4 =
        lua_settable metatable (lua_pushvalue methods (lua_pushstring (codes "__metatable") l3)) in
      let l5 =
        lua_settable metatable (lua_pushvalue methods (lua_pushstring (codes "__index") l4)) in
      let l6 = set_handler (codes "__tostring") to_string_callback info metatable l5 in
      let l7 = set_handler (codes "__gc") gc_callback info metatable l6 in
      let l8 =
        (if desc.garbage_collect
          then l7
          else set_handler (codes "Destroy") destructor_callback info methods l7) in
      let l9 = lua_newtable l8 in
      let mt = absolute (lua_gettop l9) in
      let l10 = set_handler (codes "__call") constructor_callback info mt l9 in
      let l11 = lua_setmetatable methods l10 in
      lua_pop 2 (set_methods desc.methods 0 info methods l11)

  -- `RegisterUserClass` of the description at this address.
  unfoldable pub register_user_class :
      Pointer → ClassDesc → LuaScriptContext api → Outcome (Bool × LuaScriptContext api)
  unfolding make_tables
  register_user_class address desc c = do
    assert (is_some desc.constructor)
    assert (is_some desc.destructor)
    let l = make_tables desc (length c.classes) c.lua
    assert (lua_gettop l == 0)
    ok (
      true,
      record c { lua = l; classes = c.classes ++ (record { desc = address; class = desc }) ∷ [] },
    )
