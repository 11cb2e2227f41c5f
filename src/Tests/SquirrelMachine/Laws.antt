-- ===== src/Tests/SquirrelMachine/Laws.antt =====
-- The machine keeps the documented laws of the Squirrel interface.
use multi_script.Prelude.{
  ◌≢◌, ℕ, ◌+◌, ◌≡◌, refl, ap, ◌∙◌, Bool, true, false, Option, none, some, List, [], ◌∷◌, ◌++◌,
  Bytes, bytes_eq, if◌then◌else◌, ◌==◌, length, drop, drop-append, get_elem?, arith,
}
use multi_script.Interface.Program.{CInt, Pointer}
use multi_script.Squirrel.Api.{
  SquirrelApi, Value, root_table, integer, text, user_pointer, class_value, instance_value,
  script_closure, ot_class, type_of, value_at, int_value, container, same_container,
}
use multi_script.Tests.SquirrelMachine.{
  Slots, Machine, type_or_null, int_or_none, pointer_of, up_of, push, close, looked_up, get, create,
  put, created, remove, set_up, set_hook, returns, call, compile,
}

pub type_law : (o : Option Value) {v : Value} → o ≡ some v → type_or_null o ≡ type_of v
type_law o e = rw e

pub int_law : (o : Option Value) {v : Value} → o ≡ some v → int_or_none o ≡ int_value v
int_law o e = rw e

pub pointer_law :
    (o : Option Value) {p : Pointer} → o ≡ some (user_pointer p) → pointer_of o ≡ some p
pointer_law o e = rw e

pub up_law :
    (ups : ℕ → Option Pointer) (o : Option Value) {n : ℕ}
    → o ≡ some (instance_value n)
    → up_of ups o ≡ ups n
up_law ups o e = rw e

pub set_up_law :
    (o : Option Value) (p : Pointer) (ups : ℕ → Option Pointer) {n : ℕ}
    → o ≡ some (instance_value n)
    → set_up o p ups n ≡ some p
set_up_law o p ups {n} e = let same : (n == n) ≡ true = ground arith in rw (e, same)

pub set_hook_law :
    (o : Option Value) (hooks : ℕ → Bool) {n : ℕ}
    → o ≡ some (instance_value n)
    → set_hook o hooks n ≡ true
set_hook_law o hooks {n} e = let same : (n == n) ≡ true = ground arith in rw (e, same)

found :
    (o : Option Value) (vs : List Value)
    → looked_up o (root_table ∷ vs)
      ≡ (elim o [ none ↦ root_table ∷ vs | some v ↦ v ∷ root_table ∷ vs ])
found none vs = refl
found (some v) vs = refl

pub get_law :
    (f : Slots) (s : List Value) {k : Bytes} {vs : List Value}
    → s ≡ text k ∷ root_table ∷ vs
    → get f s ≡ (elim (f none k) [ none ↦ root_table ∷ vs | some v ↦ v ∷ root_table ∷ vs ])
get_law f s {k} {vs} e = ap (get f) e ∙ found (f none k) vs

pub not_a_class : (v : CInt) → type_of (integer v) ≢ ot_class
not_a_class v same = cc

pub create_law :
    (s : List Value) {v self : Value} {k : Bytes} {vs : List Value}
    → s ≡ v ∷ text k ∷ self ∷ vs
    → create s ≡ self ∷ vs
create_law s e = ap create e

pub created_law :
    (s : List Value) (f : Slots) {v self : Value} {k : Bytes} {c : Option ℕ} {vs : List Value}
    → s ≡ v ∷ text k ∷ self ∷ vs
    → container self ≡ some c
    → (d : Option ℕ) (n : Bytes)
    → created s f d n
      ≡ (if same_container c d then (if bytes_eq n k then some v else f d n) else f d n)
created_law s f {v} {self} {k} e kind d n =
    ap (λ (t : List Value). created t f d n) e
    ∙ ap (λ (o : Option (Option ℕ)). put o k v f d n) kind

left_law :
    (n : ℕ) (s : List Value) (f : Value) (args below : List Value)
    → s ≡ args ++ f ∷ below
    → length args ≡ n
    → drop n s ≡ f ∷ below
left_law n s f args below e count = rw (e, ← count) (drop-append args (f ∷ below))

pub same_number : (n : ℕ) → (n == n) ≡ true
same_number n = ground arith

either : (b : Bool) (vs : List Value) → (if b then vs else vs) ≡ vs
either true vs = refl
either false vs = refl

pub ok_law :
    (n : ℕ) (m : Machine) (f : Value) (args below : List Value)
    → m.stack ≡ args ++ f ∷ below
    → length args ≡ n
    → (call n true m).0 ≡ true
    → (r : Value) × ((call n true m).1.stack ≡ r ∷ f ∷ below)
ok_law n m f args below e count done = (
  integer 31,
  rw done (ap (λ (vs : List Value). integer 31 ∷ vs) (left_law n m.stack f args below e count)),
)

pub no_result_law :
    (n : ℕ) (m : Machine) (f : Value) (args below : List Value)
    → m.stack ≡ args ++ f ∷ below
    → length args ≡ n
    → (call n false m).1.stack ≡ f ∷ below
no_result_law n m f args below e count =
    either (returns (get_elem? m.stack n)) (drop n m.stack)
    ∙ left_law n m.stack f args below e count

pub error_law :
    (n : ℕ) (m : Machine) (f : Value) (args below : List Value)
    → m.stack ≡ args ++ f ∷ below
    → length args ≡ n
    → (call n true m).0 ≡ false
    → (call n true m).1.stack ≡ f ∷ below
error_law n m f args below e count failed = rw failed (left_law n m.stack f args below e count)

pub compile_ok :
    (t : Bytes) (m : Machine)
    → (compile t m).0 ≡ true
    → (f : ℕ) × ((compile t m).1.stack ≡ script_closure f ∷ m.stack)
compile_ok [] m e = cc
compile_ok (b ∷ t) m e = (length t, refl)

pub compile_error :
    (t : Bytes) (m : Machine) → (compile t m).0 ≡ false → (compile t m).1.stack ≡ m.stack
compile_error [] m e = refl
compile_error (b ∷ t) m e = cc

pub instance_law :
    (m : Machine) {c : ℕ} {vs : List Value}
    → m.stack ≡ class_value c ∷ vs
    → (n : ℕ) × (instance_value m.next ∷ m.stack ≡ instance_value n ∷ class_value c ∷ vs)
      × ((if n == m.next then false else m.hooks n) ≡ false)
instance_law m e =
    let same : (m.next == m.next) ≡ true = ground arith in
    (m.next, ap (λ (vs : List Value). instance_value m.next ∷ vs) e, rw same)

abbrev pub machine : SquirrelApi
machine = record {
  State = Machine;
  stack = λ m. m.stack;
  slot = λ m. m.slots;
  instance_up = λ m. m.ups;
  collected_by_hook = λ m. m.hooks;
  sq_gettop = λ m. length m.stack;
  sq_gettype = λ i m. type_or_null (value_at i m.stack);
  sq_getinteger = λ i m. int_or_none (value_at i m.stack);
  sq_getuserpointer = λ i m. pointer_of (value_at i m.stack);
  sq_getinstanceup = λ i m. up_of m.ups (value_at i m.stack);
  sq_pop = λ n m. record m { stack = drop n m.stack };
  sq_remove = λ i m. record m { stack = remove m.stack };
  sq_pushroottable = push root_table;
  sq_pushinteger = λ v m. push (integer v) m;
  sq_pushstring = λ t m. push (text t) m;
  sq_pushuserpointer = λ p m. push (user_pointer p) m;
  sq_newclosure = λ h n m. record m { stack = close h m.stack };
  sq_get = λ i m. record m { stack = get m.slots m.stack };
  sq_createslot = λ i m. record m { stack = create m.stack; slots = created m.stack m.slots };
  sq_newclass = λ m. record (push (class_value m.next) m) {
    slots = λ d n. if same_container (some m.next) d then none else m.slots d n;
    next = m.next + 1;
  };
  sq_createinstance = λ i m. record (push (instance_value m.next) m) {
    hooks = λ n. if n == m.next then false else m.hooks n;
    next = m.next + 1;
  };
  sq_setinstanceup = λ i o m. record m { ups = set_up (value_at i m.stack) o m.ups };
  sq_setreleasehook = λ i m. record m { hooks = set_hook (value_at i m.stack) m.hooks };
  sq_compile = compile;
  sq_call = call;
  gettop-length = λ s. refl;
  gettype-value = λ i s e. type_law _ e;
  getinteger-value = λ i s e. int_law _ e;
  getuserpointer-value = λ i s e. pointer_law _ e;
  getinstanceup-value = λ i s e. up_law s.ups _ e;
  stack-pop = λ n s h. refl;
  stack-pushroottable = λ s. refl;
  stack-pushinteger = λ v s. refl;
  stack-pushstring = λ t s. refl;
  stack-pushuserpointer = λ p s. refl;
  stack-newclosure = λ h p s e. ap (close h) e;
  stack-newclosure_index = λ h i p s e. ap (close h) e;
  stack-get = λ s e. get_law s.slots s.stack e;
  stack-get_integer = λ s {k} {v} {vs} e. (integer v, vs, ap (get s.slots) e, not_a_class v);
  stack-createslot = λ s e kind. create_law s.stack e;
  slot-createslot = λ s e kind d n. created_law s.stack s.slots e kind d n;
  slot-pop = λ n s. refl;
  slot-pushroottable = λ s. refl;
  slot-pushinteger = λ v s. refl;
  slot-pushstring = λ t s. refl;
  slot-pushuserpointer = λ p s. refl;
  slot-newclosure = λ h n s. refl;
  newclass = λ s. (s.next, refl, λ n. rw (same_number s.next), λ n. refl);
  createinstance = λ s e. instance_law s e;
  stack-remove = λ s e. ap remove e;
  up-pop = λ n s. refl;
  up-remove = λ i s. refl;
  hook-remove = λ i s. refl;
  hook-setinstanceup = λ i o s. refl;
  stack-setinstanceup = λ i o s. refl;
  up-setinstanceup = λ i o s e. set_up_law _ o s.ups e;
  stack-setreleasehook = λ i s. refl;
  up-setreleasehook = λ i s. refl;
  hook-setreleasehook = λ i s e. set_hook_law _ s.hooks e;
  compile-ok = compile_ok;
  compile-error = compile_error;
  call-ok = ok_law;
  call-no_result = no_result_law;
  call-error = error_law;
}
