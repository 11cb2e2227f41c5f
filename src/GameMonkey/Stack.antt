-- ===== src/GameMonkey/Stack.antt =====
-- multiscript/GMScriptStack.cpp, and the callback of multiscript/GMScriptContext.cpp that runs a
-- registered function.
pub mod Calls
pub mod Frames
use multi_script.Prelude.{
  ℕ, ◌+◌, ◌-◌, Bool, true, false, Option, none, some, List, [], ◌∷◌, Bytes, ◌==◌, length, get_elem?,
  if◌then◌else◌, not,
}
use multi_script.Outcome.{Outcome, ok, stop, assertion, undefined, ◌>>=◌, ◌>>◌, assert}
use multi_script.Interface.Program.{CInt, Pointer, StackMethods, run}
use multi_script.Interface.Shared.{deref, Classes, is_some}
use multi_script.Interface.Desc.{FunctionDesc, ClassDesc}
use multi_script.Interface.Objects.{new_object, set_object_ptr}
use multi_script.GameMonkey.Api.{GmApi, Value, user, gm_user, UserData, function_info}
use multi_script.GameMonkey.Context.{
  GmScriptContext, GmClassInfo, GmScriptObject, find_class_info, register_user_class,
}

-- The thread of a running function is that of the machine; a call is set in a stack that C++ code
-- got from `BeginCall`. `m_numPopped` does not pass `m_numParams`.
pub record GmScriptStack (api : GmApi) : Type 0 where
  pub context : GmScriptContext api
  pub call : Option api.Call
  pub num_params : CInt
  pub num_popped : ℕ

-- The user object of a returned variable whose type is `GM_USER`.
abbrev pub plain_user : Value → Option ℕ
plain_user (user t u) = if t == gm_user then some u else none
plain_user _ = none

module _ (api : GmApi) where
  open api use {
    State, Call, user_data, alloc_table_object, thread_num_params, param_int, param_user_object,
    thread_push_int, thread_push_new_string, thread_push_user, thread_push_new_user, add_param_int,
    add_param_string, end_the_call, did_return_variable, returned_variable, returned_int,
  }

  -- The constructor
  unfoldable pub new : GmScriptContext api → Option Call → GmScriptStack api
  new c call = record {
    context = c;
    call = call;
    num_params = elim call [ none ↦ thread_num_params c.machine | some k ↦ 0 ];
    num_popped = 0;
  }

  abbrev pub on_machine : GmScriptStack api → State → GmScriptStack api
  on_machine s m = record s { context = record s.context { machine = m } }

  unfoldable pub get_num_params : GmScriptStack api → Outcome (CInt × GmScriptStack api)
  get_num_params s = ok (s.num_params, s)

  -- The value that `PopInt` reads, from the call or from the parameter.
  abbrev pub next_int : GmScriptStack api → Option Call → Option CInt
  next_int s none = param_int (s.num_params - s.num_popped - 1) s.context.machine
  next_int s (some k) = returned_int k

  abbrev pub popped {ℓ} :
      {A : Type ℓ} → Option A → GmScriptStack api → Outcome (Option A × GmScriptStack api)
  popped none s = ok (none, s)
  popped (some a) s = ok (some a, record s { num_popped = s.num_popped + 1 })

  unfoldable pub pop_int : GmScriptStack api → Outcome (Option CInt × GmScriptStack api)
  pop_int s = if s.num_popped == s.num_params then ok (none, s) else popped (next_int s s.call) s

  abbrev pub next_user : GmScriptStack api → Option Call → Option ℕ
  next_user s none = param_user_object (s.num_params - s.num_popped - 1) s.context.machine
  next_user s (some k) = plain_user (returned_variable k)

  -- The script object that a user object leads to.
  abbrev pub popped_user :
      Option ℕ → GmScriptStack api → Outcome (Option Pointer × GmScriptStack api)
  popped_user none s = ok (none, s)
  popped_user (some u) s =
      ok (user_data s.context.machine u, record s { num_popped = s.num_popped + 1 })

  unfoldable pub pop_script_object :
      GmScriptStack api → Outcome (Option Pointer × GmScriptStack api)
  pop_script_object s =
      if s.num_popped == s.num_params then ok (none, s) else popped_user (next_user s s.call) s

  unfoldable pub push_int : CInt → GmScriptStack api → Outcome (Bool × GmScriptStack api)
  push_int v s = elim s.call [
    | none ↦ ok (true, on_machine s (thread_push_int v s.context.machine))
    | some k ↦ ok (true, record s { call = some (add_param_int v k) })
  ]

  unfoldable pub push_string :
      Bytes → Option CInt → GmScriptStack api → Outcome (Bool × GmScriptStack api)
  push_string t n s = elim s.call [
    | none ↦ ok (true, on_machine s (thread_push_new_string t n s.context.machine))
    | some k ↦ ok (true, record s { call = some (add_param_string t n k) })
  ]

  unfoldable pub push_script_object :
      Pointer → GmScriptStack api → Outcome (Bool × GmScriptStack api)
  push_script_object o s = do
    assert (not (is_some s.call))
    x ← deref (s.context.gm_objects o)
    ok (true, on_machine s (thread_push_user x.gm_user_object s.context.machine))

  -- The info of a description, registered now if it was not, and its position.
  unfoldable pub class_info :
      Classes
      → Pointer
      → GmScriptContext api
      → Outcome ((Pointer × GmClassInfo) × GmScriptContext api)
  unfolding find_class_info register_user_class
  class_info described desc c = do
    c' ← (elim (find_class_info desc c.classes) [
      | some i ↦ ok c
      | none ↦ do d ← deref (described desc); (_, c') ← register_user_class api desc d c; ok c'
    ])
    i ← deref (find_class_info desc c'.classes)
    info ← deref (get_elem? c'.classes i)
    ok ((i, info), c')

  -- A new script object with its table and its user object, which is pushed.
  unfoldable pub push_object :
      Pointer → GmClassInfo → GmScriptContext api → Pointer × GmScriptContext api
  unfolding new_object
  push_object i info c =
      let (o, w) = new_object c.objects in
      let (table, m1) = alloc_table_object c.machine in
      let (u, m2) = thread_push_new_user o info.gm_type_id m1 in
      let made : GmScriptObject = record { class_info = i; gm_table = table; gm_user_object = u } in
      (
        o,
        record c {
          machine = m2;
          objects = w;
          gm_objects = λ q. if o == q then some made else c.gm_objects q;
        },
      )

  unfoldable pub push_new_script_object :
      Classes
      → Pointer
      → Option Pointer
      → GmScriptStack api
      → Outcome (Option Pointer × GmScriptStack api)
  unfolding class_info push_object set_object_ptr
  push_new_script_object described desc object_ptr s = do
    assert (not (is_some s.call))
    ((i, info), c) ← class_info described desc s.context
    let (o, c1) = push_object i info c
    w ← set_object_ptr o object_ptr c1.objects
    ok (some o, record s { context = record c1 { objects = w } })

  unfoldable pub methods : Classes → StackMethods (GmScriptStack api)
  unfolding get_num_params pop_int pop_script_object push_int push_string push_script_object
      push_new_script_object
  methods described = record {
    get_num_params = get_num_params;
    pop_int = pop_int;
    pop_script_object = pop_script_object;
    push_int = push_int;
    push_string = push_string;
    push_script_object = push_script_object;
    push_new_script_object = push_new_script_object described;
  }

  unfoldable pub end_call : GmScriptStack api → Outcome (Bool × GmScriptStack api)
  end_call s = elim s.call [
    | none ↦ stop assertion
    | some k ↦
        let (k', m) = end_the_call k s.context.machine in
        ok (
          true,
          record (on_machine s m) {
            call = some k';
            num_params = if did_return_variable k' then 1 else 0;
            num_popped = 0;
          },
        )
  ]

  -- `delete this`, which deletes the call: what is left is the context.
  unfoldable pub release_after_call : GmScriptStack api → Outcome (GmScriptContext api)
  release_after_call s = do assert (is_some s.call); ok s.context

  -- `GMFunctionCallback` for a function object with this user data
  unfoldable pub gm_function_callback :
      Classes → UserData → GmScriptContext api → Outcome (GmScriptContext api)
  unfolding new methods
  gm_function_callback described (function_info info) c = do
    desc ← deref (get_elem? c.functions info)
    (result, s) ← run (methods described) desc.function (new c none)
    assert result
    ok s.context
  gm_function_callback described _ c = stop undefined
