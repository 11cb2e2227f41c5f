-- ===== src/Lua.antt =====
-- The Lua binding, multiscript/LuaScriptContext.cpp and LuaScriptStack.cpp.
pub mod Api
pub mod Callbacks
pub mod Context
pub mod Stack
