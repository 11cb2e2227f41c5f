-- ===== src/Squirrel.antt =====
-- The Squirrel binding, multiscript/SquirrelScriptContext.cpp and SquirrelScriptStack.cpp.
pub mod Api
pub mod Callbacks
pub mod Context
pub mod Registration
pub mod Stack
