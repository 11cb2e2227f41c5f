-- ===== src/Ocaml/Stack.antt =====
-- multiscript/OcamlScriptStack.cpp
pub mod Calls
pub mod Functions
use multi_script.Prelude.{
  ℕ, ◌+◌, ◌-◌, Bool, true, false, Option, none, some, List, [], ◌∷◌, ◌++◌, Bytes, ◌==◌,
  if◌then◌else◌, length, get_elem?,
}
use multi_script.Outcome.{Outcome, ok, stop, assertion, undefined, ◌>>=◌, ◌>>◌, assert}
use multi_script.Interface.Program.{CInt, Pointer, StackMethods}
use multi_script.Ocaml.Words.{Word, val_int, int_val, val_unit}
use multi_script.Ocaml.Engine.{OcamlEngine}

-- The closure is `none` for the stack of a registered function, else the word it points to.
pub record OcamlScriptStack : Type 0 where
  pub num_pushed : ℕ
  pub num_params : ℕ
  pub is_call : Bool
  pub values : List Word
  pub result : Word
  pub closure : Option Word

abbrev pub is_some {ℓ} : {A : Type ℓ} → Option A → Bool
is_some none = false
is_some (some a) = true

-- The constructor; `values` is empty by default.
unfoldable pub new : Option Word → List Word → OcamlScriptStack
new closure values = record {
  num_pushed = 0;
  num_params = length values;
  is_call = is_some closure;
  values = values;
  result = val_unit;
  closure = closure;
}

unfoldable pub get_num_params : OcamlScriptStack → Outcome (CInt × OcamlScriptStack)
get_num_params s = ok (s.num_params, s)

-- `v[i]` on a `std::vector`
abbrev pub vector_get : Option Word → Outcome Word
vector_get none = stop undefined
vector_get (some w) = ok w

unfoldable pub pop_int : OcamlScriptStack → Outcome (Option CInt × OcamlScriptStack)
pop_int s =
    if s.is_call
    then (if s.num_params == 0
        then ok (none, s)
        else ok (some (int_val s.result), record s { num_params = s.num_params - 1 }))
    else (if s.num_params == 0 then ok (none, s) else do
      w ← vector_get (get_elem? s.values (length s.values - s.num_params))
      ok (some (int_val w), record s { num_params = s.num_params - 1 }))

unfoldable pub pop_script_object : OcamlScriptStack → Outcome (Option Pointer × OcamlScriptStack)
pop_script_object s = do assert false; ok (none, s)

unfoldable pub push_int : CInt → OcamlScriptStack → Outcome (Bool × OcamlScriptStack)
push_int v s =
    if s.is_call
    then ok (true, record s { values = s.values ++ val_int v ∷ []; num_pushed = s.num_pushed + 1 })
    else (if s.num_pushed == 1
        then ok (false, s)
        else ok (true, record s { result = val_int v; num_pushed = s.num_pushed + 1 }))

unfoldable pub push_string :
    Bytes → Option CInt → OcamlScriptStack → Outcome (Bool × OcamlScriptStack)
push_string t n s = do
  assert false
  if s.num_pushed == 1 then ok (false, s) else ok (true, record s { num_pushed = s.num_pushed + 1 })

unfoldable pub push_script_object : Pointer → OcamlScriptStack → Outcome (Bool × OcamlScriptStack)
push_script_object o s = do assert false; ok (false, s)

unfoldable pub push_new_script_object :
    Pointer → Option Pointer → OcamlScriptStack → Outcome (Option Pointer × OcamlScriptStack)
push_new_script_object c p s = do assert false; ok (none, s)

unfoldable pub methods : StackMethods OcamlScriptStack
unfolding get_num_params pop_int pop_script_object push_int push_string push_script_object
    push_new_script_object
methods = record {
  get_num_params = get_num_params;
  pop_int = pop_int;
  pop_script_object = pop_script_object;
  push_int = push_int;
  push_string = push_string;
  push_script_object = push_script_object;
  push_new_script_object = push_new_script_object;
}

module _ (e : OcamlEngine) where
  open e use {State, caml_callback, caml_callback2, caml_callback3, caml_callback_n}

  -- The `switch` of `EndCall` on the number of arguments.
  abbrev pub call_closure : Word → List Word → State → Outcome (Word × State)
  call_closure c [] st = stop assertion
  call_closure c (a ∷ []) st = caml_callback c a st
  call_closure c (a ∷ b ∷ []) st = caml_callback2 c a b st
  call_closure c (a ∷ b ∷ d ∷ []) st = caml_callback3 c a b d st
  call_closure c (a ∷ b ∷ d ∷ f ∷ vs) st = caml_callback_n c (a ∷ b ∷ d ∷ f ∷ vs) st

  abbrev pub closure_word : Option Word → Outcome Word
  closure_word none = stop undefined
  closure_word (some c) = ok c

  unfoldable pub end_call : OcamlScriptStack → State → Outcome (Bool × OcamlScriptStack × State)
  end_call s st = do
    assert s.is_call
    c ← closure_word s.closure
    (r, st') ← call_closure c s.values st
    ok (true, record s { result = r; num_params = 1 }, st')

-- `delete this`, unless the stack is not one of a call.
unfoldable pub release_after_call : OcamlScriptStack → Outcome (Unit {0})
release_after_call s = assert s.is_call
