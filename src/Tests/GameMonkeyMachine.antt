-- ===== src/Tests/GameMonkeyMachine.antt =====
-- A machine that keeps the documented laws of the Game Monkey engine: a call returns the number of
-- its function and of its arguments together, and every text has two errors.
use multi_script.Prelude.{
  ℕ, ◌+◌, ◌≡◌, refl, Bool, true, false, Option, none, some, List, [], ◌∷◌, ◌++◌, codes, arith,
  if◌then◌else◌, get_elem?, length, ◌==◌,
}
use multi_script.Interface.Program.{CInt, Pointer}
use multi_script.GameMonkey.Api.{
  GmApi, Value, null_value, integer, text, user, int_value, user_value,
}

pub record Machine : Type 0 where
  pub parameters : List Value
  pub pushed : List Value
  pub users : ℕ → Option Pointer
  pub next : ℕ

pub record Call : Type 0 where
  pub callee : ℕ
  pub arguments : List Value
  pub returned : Option CInt

abbrev int_or_none : Option Value → Option CInt
int_or_none none = none
int_or_none (some v) = int_value v

abbrev user_or_none : Option Value → Option ℕ
user_or_none none = none
user_or_none (some v) = user_value v

abbrev returned_value : Option CInt → Value
returned_value none = null_value
returned_value (some v) = integer v

abbrev has_returned : Option CInt → Bool
has_returned none = false
has_returned (some v) = true

abbrev push : Value → Machine → Machine
push v m = record m { pushed = v ∷ m.pushed }

pub int_law : (o : Option Value) {v : Value} → o ≡ some v → int_or_none o ≡ int_value v
int_law o e = rw e

pub returned_law : (o : Option CInt) → has_returned o ≡ true → o ≡ int_value (returned_value o)
returned_law none e = cc
returned_law (some v) e = refl

pub user_law :
    (n : ℕ) (o : Pointer) (f : ℕ → Option Pointer) → (if n == n then some o else f n) ≡ some o
user_law n o f = let same : (n == n) ≡ true = ground arith in rw same

abbrev pub machine : GmApi
machine = record {
  State = Machine;
  Call = Call;
  parameters = λ m. m.parameters;
  pushed = λ m. m.pushed;
  user_data = λ m. m.users;
  global = λ m n. none;
  type_member = λ m t n. none;
  arguments = λ k. k.arguments;
  callee = λ k. k.callee;
  execute_string = λ t m. (2, m);
  log_entries = λ m. codes "first" ∷ codes "second" ∷ [];
  log_reset = λ m. m;
  create_user_type = λ n m. (m.next, record m { next = m.next + 1 });
  register_library_function = λ e m. m;
  register_type_library = λ t es m. m;
  register_user_callbacks = λ t m. m;
  alloc_table_object = λ m. (m.next, record m { next = m.next + 1 });
  thread_num_params = λ m. length m.parameters;
  param_int = λ i m. int_or_none (get_elem? m.parameters i);
  param_user_object = λ i m. user_or_none (get_elem? m.parameters i);
  this_user = λ m. some 5;
  thread_push_int = λ v m. push (integer v) m;
  thread_push_new_string = λ t n m. push (text t) m;
  thread_push_user = λ u m. push (user 7 u) m;
  thread_push_new_user = λ o t m. (
    m.next,
    record (push (user t m.next) m) {
      users = λ u. if u == m.next then some o else m.users u;
      next = m.next + 1;
    },
  );
  begin_global_function =
      λ n m. (some (record { callee = length n; arguments = []; returned = none }), m);
  add_param_int = λ v k. record k { arguments = k.arguments ++ integer v ∷ [] };
  add_param_string = λ t n k. record k { arguments = k.arguments ++ text t ∷ [] };
  end_the_call = λ k m. (record k { returned = some (k.callee + length k.arguments) }, m);
  did_return_variable = λ k. has_returned k.returned;
  returned_variable = λ k. returned_value k.returned;
  returned_int = λ k. k.returned;
  num_params-length = λ s. refl;
  param_int-value = λ i s e. int_law _ e;
  parameters-push_int = λ v s. refl;
  pushed-push_int = λ v s. refl;
  parameters-table = λ s. refl;
  pushed-table = λ s. refl;
  parameters-push_new_user = λ o t s. refl;
  pushed-push_new_user = λ o t s. refl;
  user_data-push_new_user = λ o t s. user_law s.next o s.users;
  user_data-push_int = λ v s. refl;
  arguments-add_param_int = λ v k. refl;
  callee-add_param_int = λ v k. refl;
  returned_int-value = λ k e. returned_law k.returned e;
}
