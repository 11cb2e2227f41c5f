-- ===== src/Interface.antt =====
-- multiscript/ScriptInterface.h: what the four language bindings have in common.
pub mod Program
pub mod Lifecycle
pub mod Objects
pub mod Pointers
pub mod Desc
pub mod Frame
pub mod Refinement
pub mod Shared
pub mod Uncounted
pub mod Utilities
