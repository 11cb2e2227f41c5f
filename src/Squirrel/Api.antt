-- ===== src/Squirrel/Api.antt =====
-- What the Squirrel binding uses of the Squirrel 2 C interface, squirrel/include/squirrel.h, with
-- the documented effect of each function on the running frame and on the slots of the root table
-- and of classes.
use multi_script.Prelude.{
  ℕ, zero, suc, ◌-◌, ◌≤◌, ◌≡◌, ◌≢◌, Bool, true, false, Option, none, some, List, ◌∷◌, ◌++◌, Bytes,
  bytes_eq, if◌then◌else◌, length, drop, get_elem?, ltb, ◌==◌,
}
use multi_script.Interface.Program.{CInt, Pointer}

-- The C functions that the binding hands to Squirrel as closures.
pub data Handler : Type 0 where
  function_callback constructor_callback destructor_callback to_string_callback : Handler
  method_callback : Handler

-- A float stands by the `int` that it converts to. A native closure has a user pointer as its
-- last free variable, and an integer before it, if any; both are pushed when it runs.
pub data Value : Type 0 where
  null_value root_table : Value
  integer float : CInt → Value
  text : Bytes → Value
  user_pointer : Pointer → Value
  class_value instance_value : ℕ → Value
  script_closure : ℕ → Value
  native_closure : Handler → Pointer → Option CInt → Value

pub data ObjectType : Type 0 where
  ot_null ot_table ot_integer ot_float ot_string ot_userpointer ot_class ot_instance : ObjectType
  ot_closure ot_nativeclosure : ObjectType

abbrev pub type_of : Value → ObjectType
type_of null_value = ot_null
type_of root_table = ot_table
type_of (integer v) = ot_integer
type_of (float v) = ot_float
type_of (text t) = ot_string
type_of (user_pointer p) = ot_userpointer
type_of (class_value c) = ot_class
type_of (instance_value i) = ot_instance
type_of (script_closure f) = ot_closure
type_of (native_closure h p i) = ot_nativeclosure

-- A stack index: `-n`, or `n` from the bottom.
pub data Index : Type 0 where
  from_top absolute : ℕ → Index

abbrev pub value_at : Index → List Value → Option Value
value_at (from_top zero) vs = none
value_at (from_top (suc n)) vs = get_elem? vs n
value_at (absolute zero) vs = none
value_at (absolute (suc n)) vs =
    if ltb n (length vs) then get_elem? vs (length vs - suc n) else none

-- What `sq_getinteger` gives; `none` stands for `SQ_ERROR`.
abbrev pub int_value : Value → Option CInt
int_value (integer v) = some v
int_value (float v) = some v
int_value _ = none

-- The binding creates slots in the root table, `none`, and in classes. Those of the root table are
-- meant as `sq_get` finds them, those of a class as its own.
abbrev pub container : Value → Option (Option ℕ)
container root_table = some none
container (class_value c) = some (some c)
container _ = none

abbrev pub same_container : Option ℕ → Option ℕ → Bool
same_container none none = true
same_container (some c) (some d) = c == d
same_container _ _ = false

abbrev pub is_callable : Option Value → Bool
is_callable (some (script_closure f)) = true
is_callable (some (native_closure h p i)) = true
is_callable _ = false

-- A status `SQ_OK` is `true`, any other one `false`.
pub record SquirrelApi : Type 1 where
  pub State : Type 0
  pub stack : State → List Value
  pub slot : State → Option ℕ → Bytes → Option Value
  pub instance_up : State → ℕ → Option Pointer
  pub collected_by_hook : State → ℕ → Bool
  -- queries
  pub sq_gettop : State → ℕ
  pub sq_gettype : Index → State → ObjectType
  pub sq_getinteger : Index → State → Option CInt
  pub sq_getuserpointer : Index → State → Option Pointer
  pub sq_getinstanceup : Index → State → Option Pointer
  -- the stack
  pub sq_pop : ℕ → State → State
  pub sq_remove : Index → State → State
  pub sq_pushroottable : State → State
  pub sq_pushinteger : CInt → State → State
  pub sq_pushstring : Bytes → State → State
  pub sq_pushuserpointer : Pointer → State → State
  pub sq_newclosure : Handler → ℕ → State → State
  -- slots, classes and instances
  pub sq_get : Index → State → State
  pub sq_createslot : Index → State → State
  pub sq_newclass : State → State
  pub sq_createinstance : Index → State → State
  pub sq_setinstanceup : Index → Pointer → State → State
  pub sq_setreleasehook : Index → State → State
  -- running code: the flag says whether the result is pushed
  pub sq_compile : Bytes → State → Bool × State
  pub sq_call : ℕ → Bool → State → Bool × State
  -- the documented effects that the theorems rest on
  pub gettop-length : (s : State) → sq_gettop s ≡ length (stack s)
  pub gettype-value :
      (i : Index) (s : State) {v : Value}
      → value_at i (stack s) ≡ some v
      → sq_gettype i s ≡ type_of v
  pub getinteger-value :
      (i : Index) (s : State) {v : Value}
      → value_at i (stack s) ≡ some v
      → sq_getinteger i s ≡ int_value v
  pub getuserpointer-value :
      (i : Index) (s : State) {p : Pointer}
      → value_at i (stack s) ≡ some (user_pointer p)
      → sq_getuserpointer i s ≡ some p
  pub getinstanceup-value :
      (i : Index) (s : State) {n : ℕ}
      → value_at i (stack s) ≡ some (instance_value n)
      → sq_getinstanceup i s ≡ instance_up s n
  pub stack-pop : (n : ℕ) (s : State) → n ≤ length (stack s) → stack (sq_pop n s) ≡ drop n (stack s)
  pub stack-pushroottable : (s : State) → stack (sq_pushroottable s) ≡ root_table ∷ stack s
  pub stack-pushinteger : (v : CInt) (s : State) → stack (sq_pushinteger v s) ≡ integer v ∷ stack s
  pub stack-pushstring : (t : Bytes) (s : State) → stack (sq_pushstring t s) ≡ text t ∷ stack s
  pub stack-pushuserpointer :
      (p : Pointer) (s : State) → stack (sq_pushuserpointer p s) ≡ user_pointer p ∷ stack s
  pub stack-newclosure :
      (h : Handler) (p : Pointer) (s : State) {vs : List Value}
      → stack s ≡ user_pointer p ∷ vs
      → stack (sq_newclosure h 1 s) ≡ native_closure h p none ∷ vs
  pub stack-newclosure_index :
      (h : Handler) (i : CInt) (p : Pointer) (s : State) {vs : List Value}
      → stack s ≡ integer i ∷ user_pointer p ∷ vs
      → stack (sq_newclosure h 2 s) ≡ native_closure h p (some i) ∷ vs
  -- a missing key is popped, and a number has no class among what it can be asked for
  pub stack-get :
      (s : State) {k : Bytes} {vs : List Value}
      → stack s ≡ text k ∷ root_table ∷ vs
      → stack (sq_get (from_top 2) s)
        ≡ (elim (slot s none k) [ none ↦ root_table ∷ vs | some v ↦ v ∷ root_table ∷ vs ])
  pub stack-get_integer :
      (s : State) {k : Bytes} {v : CInt} {vs : List Value}
      → stack s ≡ text k ∷ integer v ∷ vs
      → (w : Value) × (ws : List Value) × (stack (sq_get (from_top 2) s) ≡ w ∷ ws)
        × (type_of w ≢ ot_class)
  pub stack-createslot :
      (s : State) {v self : Value} {k : Bytes} {c : Option ℕ} {vs : List Value}
      → stack s ≡ v ∷ text k ∷ self ∷ vs
      → container self ≡ some c
      → stack (sq_createslot (from_top 3) s) ≡ self ∷ vs
  pub slot-createslot :
      (s : State) {v self : Value} {k : Bytes} {c : Option ℕ} {vs : List Value}
      → stack s ≡ v ∷ text k ∷ self ∷ vs
      → container self ≡ some c
      → (d : Option ℕ) (n : Bytes)
      → slot (sq_createslot (from_top 3) s) d n
        ≡ (if same_container c d then (if bytes_eq n k then some v else slot s d n) else slot s d n)
  pub slot-pop : (n : ℕ) (s : State) → slot (sq_pop n s) ≡ slot s
  pub slot-pushroottable : (s : State) → slot (sq_pushroottable s) ≡ slot s
  pub slot-pushinteger : (v : CInt) (s : State) → slot (sq_pushinteger v s) ≡ slot s
  pub slot-pushstring : (t : Bytes) (s : State) → slot (sq_pushstring t s) ≡ slot s
  pub slot-pushuserpointer : (p : Pointer) (s : State) → slot (sq_pushuserpointer p s) ≡ slot s
  pub slot-newclosure : (h : Handler) (n : ℕ) (s : State) → slot (sq_newclosure h n s) ≡ slot s
  -- a new class has no slots
  pub newclass :
      (s : State)
      → (c : ℕ) × (stack (sq_newclass s) ≡ class_value c ∷ stack s)
        × ((n : Bytes) → slot (sq_newclass s) (some c) n ≡ none)
        × ((n : Bytes) → slot (sq_newclass s) none n ≡ slot s none n)
  pub createinstance :
      (s : State) {c : ℕ} {vs : List Value}
      → stack s ≡ class_value c ∷ vs
      → (n : ℕ) × (stack (sq_createinstance (from_top 1) s) ≡ instance_value n ∷ class_value c ∷ vs)
        × (collected_by_hook (sq_createinstance (from_top 1) s) n ≡ false)
  pub stack-remove :
      (s : State) {v w : Value} {vs : List Value}
      → stack s ≡ v ∷ w ∷ vs
      → stack (sq_remove (from_top 2) s) ≡ v ∷ vs
  pub up-pop : (n : ℕ) (s : State) → instance_up (sq_pop n s) ≡ instance_up s
  pub up-remove : (i : Index) (s : State) → instance_up (sq_remove i s) ≡ instance_up s
  pub hook-remove :
      (i : Index) (s : State) → collected_by_hook (sq_remove i s) ≡ collected_by_hook s
  pub hook-setinstanceup :
      (i : Index) (o : Pointer) (s : State)
      → collected_by_hook (sq_setinstanceup i o s) ≡ collected_by_hook s
  pub stack-setinstanceup :
      (i : Index) (o : Pointer) (s : State) → stack (sq_setinstanceup i o s) ≡ stack s
  pub up-setinstanceup :
      (i : Index) (o : Pointer) (s : State) {n : ℕ}
      → value_at i (stack s) ≡ some (instance_value n)
      → instance_up (sq_setinstanceup i o s) n ≡ some o
  pub stack-setreleasehook : (i : Index) (s : State) → stack (sq_setreleasehook i s) ≡ stack s
  pub up-setreleasehook :
      (i : Index) (s : State) → instance_up (sq_setreleasehook i s) ≡ instance_up s
  pub hook-setreleasehook :
      (i : Index) (s : State) {n : ℕ}
      → value_at i (stack s) ≡ some (instance_value n)
      → collected_by_hook (sq_setreleasehook i s) n ≡ true
  pub compile-ok :
      (t : Bytes) (s : State)
      → (sq_compile t s).0 ≡ true
      → (f : ℕ) × (stack (sq_compile t s).1 ≡ script_closure f ∷ stack s)
  pub compile-error :
      (t : Bytes) (s : State) → (sq_compile t s).0 ≡ false → stack (sq_compile t s).1 ≡ stack s
  -- a call pops the arguments and leaves the closure, with the result above it if it is wanted
  pub call-ok :
      (n : ℕ) (s : State) (f : Value) (args below : List Value)
      → stack s ≡ args ++ f ∷ below
      → length args ≡ n
      → (sq_call n true s).0 ≡ true
      → (r : Value) × (stack (sq_call n true s).1 ≡ r ∷ f ∷ below)
  pub call-no_result :
      (n : ℕ) (s : State) (f : Value) (args below : List Value)
      → stack s ≡ args ++ f ∷ below
      → length args ≡ n
      → stack (sq_call n false s).1 ≡ f ∷ below
  pub call-error :
      (n : ℕ) (s : State) (f : Value) (args below : List Value)
      → stack s ≡ args ++ f ∷ below
      → length args ≡ n
      → (sq_call n true s).0 ≡ false
      → stack (sq_call n true s).1 ≡ f ∷ below
