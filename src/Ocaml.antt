-- ===== src/Ocaml.antt =====
-- The Ocaml binding, multiscript/OcamlScriptStack.cpp and OcamlScriptContext.cpp.
pub mod Context
pub mod Engine
pub mod Print
pub mod Stack
pub mod Words
