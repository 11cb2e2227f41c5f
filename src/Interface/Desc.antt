-- ===== src/Interface/Desc.antt =====
-- The descriptions of functions and classes in multiscript/ScriptInterface.h.
use multi_script.Prelude.{ℕ, Bool, true, Option, none, List, [], Bytes}
use multi_script.Interface.Program.{CInt, Pointer, Program, GenericFunction}
use multi_script.Interface.Objects.{Teardown}

pub record FunctionDesc : Type 0 where
  pub name : Bytes
  pub function : GenericFunction
  pub num_params : CInt

-- `m_method(scriptObject, stack)`
pub record ClassMethodDesc : Type 0 where
  pub name : Bytes
  pub method : Pointer → GenericFunction

-- A constructor ends with what it leaves in `scriptObject->m_objectPtr`. A to-string method ends
-- with its result and the text that it leaves in the buffer of the size that it is given. The
-- constructor and the destructor are optional here, since `RegisterUserClass` tests for them.
pub record ClassDesc : Type 0 where
  pub garbage_collect : Bool
  pub super_class : Option Pointer
  pub name : Bytes
  pub constructor : Option (Pointer → Program (Option Pointer))
  pub destructor : Option (Pointer → Teardown)
  pub to_string_method : Option (Pointer → ℕ → Bool × Bytes)
  pub methods : List ClassMethodDesc

-- `ClassDesc()`
unfoldable pub new_class_desc : Bytes → ClassDesc
new_class_desc no_name = record {
  garbage_collect = true;
  super_class = none;
  name = no_name;
  constructor = none;
  destructor = none;
  to_string_method = none;
  methods = [];
}
