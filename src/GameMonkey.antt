-- ===== src/GameMonkey.antt =====
-- The Game Monkey binding, multiscript/GMScriptContext.cpp and GMScriptStack.cpp.
pub mod Api
pub mod Callbacks
pub mod Context
pub mod Errors
pub mod Stack
