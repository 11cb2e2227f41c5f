-- ===== src/Tests/SquirrelMachine.antt =====
-- A machine that keeps the documented laws of the Squirrel interface: script closure 0 returns 31,
-- any other call fails, and every text but the empty one compiles.
pub mod Laws
use multi_script.Prelude.{
  ◌≢◌, ℕ, zero, ◌+◌, ◌≡◌, refl, ap, ◌∙◌, Bool, true, false, Option, none, some, List, [], ◌∷◌, ◌++◌,
  Bytes, bytes_eq, if◌then◌else◌, ◌==◌, length, drop, drop-append, get_elem?, arith,
}
use multi_script.Interface.Program.{CInt, Pointer}
use multi_script.Squirrel.Api.{
  SquirrelApi, Handler, Value, root_table, integer, text, user_pointer, class_value, instance_value,
  script_closure, native_closure, ObjectType, ot_null, ot_class, type_of, value_at, int_value,
  container, same_container,
}

abbrev pub Slots : Type 0
Slots = Option ℕ → Bytes → Option Value

pub record Machine : Type 0 where
  pub stack : List Value
  pub slots : Slots
  pub ups : ℕ → Option Pointer
  pub hooks : ℕ → Bool
  pub next : ℕ

abbrev pub type_or_null : Option Value → ObjectType
type_or_null none = ot_null
type_or_null (some v) = type_of v

abbrev pub int_or_none : Option Value → Option CInt
int_or_none none = none
int_or_none (some v) = int_value v

abbrev pub pointer_of : Option Value → Option Pointer
pointer_of (some (user_pointer p)) = some p
pointer_of _ = none

abbrev pub up_of : (ℕ → Option Pointer) → Option Value → Option Pointer
up_of ups (some (instance_value n)) = ups n
up_of ups _ = none

abbrev pub push : Value → Machine → Machine
push v m = record m { stack = v ∷ m.stack }

abbrev pub close : Handler → List Value → List Value
close h (user_pointer p ∷ vs) = native_closure h p none ∷ vs
close h (integer i ∷ user_pointer p ∷ vs) = native_closure h p (some i) ∷ vs
close h vs = vs

abbrev pub looked_up : Option Value → List Value → List Value
looked_up none vs = vs
looked_up (some v) vs = v ∷ vs

abbrev pub get : Slots → List Value → List Value
get f (text k ∷ root_table ∷ vs) = looked_up (f none k) (root_table ∷ vs)
get f (v ∷ vs) = vs
get f [] = []

abbrev pub create : List Value → List Value
create (v ∷ k ∷ self ∷ vs) = self ∷ vs
create vs = vs

abbrev pub put : Option (Option ℕ) → Bytes → Value → Slots → Slots
put none k v f d n = f d n
put (some c) k v f d n =
    if same_container c d then (if bytes_eq n k then some v else f d n) else f d n

abbrev pub created : List Value → Slots → Slots
created (v ∷ text k ∷ self ∷ vs) f = put (container self) k v f
created vs f = f

abbrev pub remove : List Value → List Value
remove (v ∷ w ∷ vs) = v ∷ vs
remove vs = vs

abbrev pub set_up : Option Value → Pointer → (ℕ → Option Pointer) → ℕ → Option Pointer
set_up (some (instance_value n)) o ups m = if m == n then some o else ups m
set_up _ o ups m = ups m

abbrev pub set_hook : Option Value → (ℕ → Bool) → ℕ → Bool
set_hook (some (instance_value n)) hooks m = if m == n then true else hooks m
set_hook _ hooks m = hooks m

abbrev pub returns : Option Value → Bool
returns (some (script_closure zero)) = true
returns _ = false

abbrev pub call : ℕ → Bool → Machine → Bool × Machine
call n result m =
    let done = returns (get_elem? m.stack n) in
    let left = drop n m.stack in
    (done, record m { stack = if done then (if result then integer 31 ∷ left else left) else left })

abbrev pub compile : Bytes → Machine → Bool × Machine
compile [] m = (false, m)
compile (b ∷ t) m = (true, push (script_closure (length t)) m)
