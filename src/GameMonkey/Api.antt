-- ===== src/GameMonkey/Api.antt =====
-- What the Game Monkey binding uses of the engine: gmMachine and gmThread in gm/src/gm, and gmCall in
-- gm/src/binds.
use multi_script.Prelude.{
  ℕ, ◌≡◌, Bool, true, Option, none, some, List, [], ◌∷◌, ◌++◌, Bytes, length, get_elem?,
}
use multi_script.Interface.Program.{CInt, Pointer}

-- The C functions that the binding hands to the engine, and what `m_cUserData` leads to.
pub data Handler : Type 0 where
  function_callback constructor_callback destructor_callback to_string_callback : Handler
  method_callback : Handler

pub data UserData : Type 0 where
  function_info class_info : Pointer → UserData
  method_info : Pointer → ℕ → UserData

pub record FunctionEntry : Type 0 where
  pub name : Bytes
  pub function : Handler
  pub user_data : UserData

-- `user t u` is the user object `u` of the type `t`; a float or another object is `other`.
pub data Value : Type 0 where
  null_value other : Value
  integer : CInt → Value
  text : Bytes → Value
  user : ℕ → ℕ → Value

abbrev pub int_value : Value → Option CInt
int_value (integer v) = some v
int_value _ = none

abbrev pub user_value : Value → Option ℕ
user_value (user t u) = some u
user_value _ = none

-- The type of a plain user object; the types that the machine makes for classes come after it.
abbrev pub gm_user : ℕ
gm_user = 6

-- A thread's running function has parameters, in their order, and what it pushed, last first. A
-- `Call` is a call that C++ code is making, of the function object `callee`.
pub record GmApi : Type 1 where
  pub State : Type 0
  pub Call : Type 0
  pub parameters : State → List Value
  pub pushed : State → List Value
  pub user_data : State → ℕ → Option Pointer
  pub global : State → Bytes → Option (Handler × UserData)
  pub type_member : State → ℕ → Bytes → Option (Handler × UserData)
  pub arguments : Call → List Value
  pub callee : Call → ℕ
  -- the machine
  pub execute_string : Bytes → State → ℕ × State
  pub log_entries : State → List Bytes
  pub log_reset : State → State
  pub create_user_type : Bytes → State → ℕ × State
  pub register_library_function : FunctionEntry → State → State
  pub register_type_library : ℕ → List FunctionEntry → State → State
  pub register_user_callbacks : ℕ → State → State
  pub alloc_table_object : State → ℕ × State
  -- the thread of a running function; `none` stands for a result `false`
  pub thread_num_params : State → CInt
  pub param_int : ℕ → State → Option CInt
  pub param_user_object : ℕ → State → Option ℕ
  pub this_user : State → Option Pointer
  pub thread_push_int : CInt → State → State
  pub thread_push_new_string : Bytes → Option CInt → State → State
  pub thread_push_user : ℕ → State → State
  pub thread_push_new_user : Pointer → ℕ → State → ℕ × State
  -- calls
  pub begin_global_function : Bytes → State → Option Call × State
  pub add_param_int : CInt → Call → Call
  pub add_param_string : Bytes → Option CInt → Call → Call
  pub end_the_call : Call → State → Call × State
  pub did_return_variable : Call → Bool
  pub returned_variable : Call → Value
  pub returned_int : Call → Option CInt
  -- the documented effects that the theorems rest on
  pub num_params-length : (s : State) → thread_num_params s ≡ length (parameters s)
  pub param_int-value :
      (i : ℕ) (s : State) {v : Value}
      → get_elem? (parameters s) i ≡ some v
      → param_int i s ≡ int_value v
  pub parameters-push_int : (v : CInt) (s : State) → parameters (thread_push_int v s) ≡ parameters s
  pub pushed-push_int : (v : CInt) (s : State) → pushed (thread_push_int v s) ≡ integer v ∷ pushed s
  pub parameters-table : (s : State) → parameters (alloc_table_object s).1 ≡ parameters s
  pub pushed-table : (s : State) → pushed (alloc_table_object s).1 ≡ pushed s
  pub parameters-push_new_user :
      (o t : ℕ) (s : State) → parameters (thread_push_new_user o t s).1 ≡ parameters s
  pub pushed-push_new_user :
      (o t : ℕ) (s : State)
      → pushed (thread_push_new_user o t s).1 ≡ user t (thread_push_new_user o t s).0 ∷ pushed s
  pub user_data-push_new_user :
      (o t : ℕ) (s : State)
      → user_data (thread_push_new_user o t s).1 (thread_push_new_user o t s).0 ≡ some o
  pub user_data-push_int : (v : CInt) (s : State) → user_data (thread_push_int v s) ≡ user_data s
  pub arguments-add_param_int :
      (v : CInt) (k : Call) → arguments (add_param_int v k) ≡ arguments k ++ integer v ∷ []
  pub callee-add_param_int : (v : CInt) (k : Call) → callee (add_param_int v k) ≡ callee k
  pub returned_int-value :
      (k : Call) → did_return_variable k ≡ true → returned_int k ≡ int_value (returned_variable k)
