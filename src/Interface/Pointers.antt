-- ===== src/Interface/Pointers.antt =====
-- `ScriptObjectPtr` of multiscript/ScriptInterface.h, the owner of a script object, and
-- `ScriptCallPtr`, the owner of the stack of a call.
pub mod Ownership
use multi_script.Prelude.{Option, none, some}
use multi_script.Outcome.{Outcome, ok, ◌>>=◌}
use multi_script.Interface.Program.{Pointer}
use multi_script.Interface.Objects.{Objects, release}

-- `m_object`
abbrev pub ScriptObjectPtr : Type 0
ScriptObjectPtr = Option Pointer

-- `~ScriptObjectPtr()`
unfoldable pub destroy_ptr : ScriptObjectPtr → Objects → Outcome Objects
unfolding release
destroy_ptr none w = ok w
destroy_ptr (some o) w = release o w

-- `operator = (ScriptObject* object)`
unfoldable pub assign_ptr :
    ScriptObjectPtr → Option Pointer → Objects → Outcome (ScriptObjectPtr × Objects)
unfolding destroy_ptr
assign_ptr p object w = do w' ← destroy_ptr p w; ok (object, w')
