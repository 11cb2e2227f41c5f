-- ===== src/Lua/Context.antt =====
-- multiscript/LuaScriptContext.cpp: the context, script execution and the registration of functions.
pub mod Classes
use multi_script.Prelude.{
  ℕ, ◌+◌, Bool, true, false, Option, none, some, List, [], ◌∷◌, ◌++◌, Bytes, codes, ◌==◌,
  if◌then◌else◌, length, get_elem?, not,
}
use multi_script.Outcome.{Outcome, ok, stop, undefined, ◌>>=◌, ◌>>◌, assert}
use multi_script.Interface.Program.{CInt, Pointer}
use multi_script.Interface.Desc.{FunctionDesc, ClassDesc}
use multi_script.Interface.Objects.{Objects}
use multi_script.Lua.Api.{
  LuaApi, Handler, function_callback, from_top, lua_errrun, lua_errsyntax, lua_errmem, lua_errerr,
}

-- `LuaClassInfo`: the address of the description, and the description.
pub record LuaClassInfo : Type 0 where
  pub desc : Pointer
  pub class : ClassDesc

-- The context with what it reaches: the Lua state, the infos, whose addresses are their positions,
-- whether a logger is set and what went to it, and the script objects.
pub record LuaScriptContext (api : LuaApi) : Type 0 where
  pub lua : api.State
  pub functions : List FunctionDesc
  pub classes : List LuaClassInfo
  pub has_logger : Bool
  pub log : List Bytes
  pub objects : Objects

-- The text that `%s` puts in; for a null pointer the C library is free to do anything.
abbrev pub formatted : Bytes → Option Bytes → Bytes → Outcome Bytes
formatted before none after = stop undefined
formatted before (some m) after = ok (before ++ m ++ after)

-- The branches of the `switch` in `LuaCall`, by what they write before the message.
abbrev pub error_prefix : ℕ → Option Bytes
error_prefix status =
    if status == lua_errrun
    then some (codes "EXECUTION ERROR:\n")
    else (if status == lua_errsyntax
        then some (codes "SYNTAX ERROR: ")
        else (if status == lua_errmem
            then some (codes "MEMORY ERROR: ")
            else (if status == lua_errerr then some (codes "ERROR in ERROR HANDLER: ") else none)))

-- `char s2 = *s`, of the text of the top value
abbrev pub read_first : Option Bytes → Outcome (Unit {0})
read_first none = stop undefined
read_first (some m) = ok tt

module _ (api : LuaApi) where
  open api use {
    State, lua_gettop, lua_tostring, lua_isfunction, lua_pop, lua_pushlightuserdata,
    lua_pushcclosure, lua_setglobal, lua_getglobal, lua_loadstring, lua_pcall,
  }

  -- `m_logger->Output(…)`
  unfoldable pub output : Bytes → LuaScriptContext api → Outcome (LuaScriptContext api)
  output text c =
      if c.has_logger then ok (record c { log = c.log ++ text ∷ [] }) else stop undefined

  abbrev pub report :
      Option Bytes → Option Bytes → LuaScriptContext api → Outcome (Bool × LuaScriptContext api)
  report none message c = ok (true, c)
  report (some before) message c = do
    text ← (if c.has_logger then formatted before message (codes "\n") else stop undefined)
    c' ← output text c
    ok (false, c')

  -- `LuaCall(numArgs, LUA_MULTRET)`
  unfoldable pub lua_call : ℕ → LuaScriptContext api → Outcome (Bool × LuaScriptContext api)
  unfolding output
  lua_call num_args c =
      let (status, l) = lua_pcall num_args c.lua in
      let message : Option Bytes = if status == 0 then none else lua_tostring (from_top 1) l in
      report (error_prefix status) message (record c { lua = l })

  unfoldable pub execute_string :
      Bytes → LuaScriptContext api → Outcome (Bool × LuaScriptContext api)
  unfolding lua_call
  execute_string text c =
      let (status, l) = lua_loadstring text c.lua in lua_call 0 (record c { lua = l })

  -- `BeginCall(name)`: whether there is such a function, which then lies on the stack.
  unfoldable pub begin_call : Bytes → LuaScriptContext api → Outcome (Bool × LuaScriptContext api)
  begin_call name c = do
    (if lua_gettop c.lua == 0 then ok tt else read_first (lua_tostring (from_top 1) c.lua))
    assert (lua_gettop c.lua == 0)
    let l = lua_getglobal name c.lua
    if lua_isfunction (from_top 1) l
        then ok (true, record c { lua = l })
        else ok (false, record c { lua = lua_pop 1 l })

  unfoldable pub register_function :
      FunctionDesc → LuaScriptContext api → Outcome (Bool × LuaScriptContext api)
  register_function desc c =
      let info = length c.functions in
      let l =
        lua_setglobal desc.name
          (lua_pushcclosure function_callback 1 (lua_pushlightuserdata info c.lua)) in
      ok (true, record c { lua = l; functions = c.functions ++ desc ∷ [] })

  unfoldable pub set_logger : Bool → LuaScriptContext api → LuaScriptContext api
  set_logger logger c = record c { has_logger = logger }

  -- `LuaPrintCallback`
  unfoldable pub lua_print_callback : Bytes → LuaScriptContext api → Outcome (LuaScriptContext api)
  unfolding output
  lua_print_callback text c = if c.has_logger then output text c else ok c
