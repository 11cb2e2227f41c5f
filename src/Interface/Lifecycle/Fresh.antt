-- ===== src/Interface/Lifecycle/Fresh.antt =====
-- A new script object, and the pointer that is stored into it.
use multi_script.Prelude.{◌≡◌, ◌≢◌, Option, none, some, false, arith}
use multi_script.Outcome.{ok}
use multi_script.Interface.Program.{Pointer}
use multi_script.Interface.Objects.{ScriptObject, Objects, new_object, set_object_ptr, update}
use multi_script.Interface.Lifecycle.Locked.{set_object_ptr-live}

pub new_object-at :
    (w : Objects)
    → (new_object w).1.at w.next ≡ some (record { object_ptr = none; locked_by_script = false })
unfolding new_object
new_object-at w = ground arith

pub new_object-others : (w : Objects) (q : Pointer) → q ≢ w.next → (new_object w).1.at q ≡ w.at q
unfolding new_object
new_object-others w q ne = ground arith

pub update_other :
    (f : Pointer → Option ScriptObject) (o : Pointer) (v : Option ScriptObject) (q : Pointer)
    → q ≢ o
    → update f o v q ≡ f q
update_other f o v q ne = ground arith

pub fresh_object :
    (w : Objects) (p : Option Pointer)
    → (w' : Objects) × (set_object_ptr w.next p (new_object w).1 ≡ ok w')
      × (w'.at w.next ≡ some (record { object_ptr = p; locked_by_script = false }))
unfolding new_object
fresh_object w p =
    let v = (new_object w).1 in
    let made : ScriptObject = record { object_ptr = p; locked_by_script = false } in
    (
      record v { at = update v.at w.next (some made) },
      set_object_ptr-live w.next v (new_object-at w) p,
      ground arith,
    )
