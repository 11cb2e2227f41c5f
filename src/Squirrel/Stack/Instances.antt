-- ===== src/Squirrel/Stack/Instances.antt =====
-- `PushNewScriptObject` of multiscript/SquirrelScriptStack.cpp looks the class up in whatever lies on
-- the top of the stack.
use multi_script.Prelude.{
  Bytes, ℕ, ◌+◌, ◌≡◌, ◌≢◌, refl, ap, ◌∙◌, Bool, false, Option, none, some, List, ◌∷◌, arith,
}
use multi_script.Outcome.{ok, stop, assertion}
use multi_script.Interface.Program.{CInt, Pointer}
use multi_script.Interface.Shared.{Classes}
use multi_script.Interface.Desc.{ClassDesc}
use multi_script.Interface.Objects.{new_object}
use multi_script.Interface.Lifecycle.Fresh.{fresh_object}
use multi_script.Squirrel.Api.{
  SquirrelApi, Value, root_table, integer, text, class_value, instance_value, from_top, value_at,
  ObjectType, ot_null, ot_table, ot_integer, ot_float, ot_string, ot_userpointer, ot_class,
  ot_instance, ot_closure, ot_nativeclosure, type_of,
}
use multi_script.Squirrel.Context.{SquirrelScriptContext}
use multi_script.Squirrel.Context.Classes.{find_class_info}
use multi_script.Squirrel.Stack.{
  SquirrelScriptStack, is_class, push_new_script_object, ensure_registered,
}

not_class : (t : ObjectType) → t ≢ ot_class → is_class t ≡ false
not_class ot_null ne = refl
not_class ot_table ne = refl
not_class ot_integer ne = refl
not_class ot_float ne = refl
not_class ot_string ne = refl
not_class ot_userpointer ne = refl
not_class ot_class ne = absurd (ne refl)
not_class ot_instance ne = refl
not_class ot_closure ne = refl
not_class ot_nativeclosure ne = refl

module _ (api : SquirrelApi) (described : Classes) where
  open api use {
    State, stack, slot, instance_up, collected_by_hook, gettype-value, stack-pushstring,
    slot-pushstring, stack-get, stack-get_integer, createinstance, stack-remove, up-remove,
    hook-remove, hook-setinstanceup, stack-setinstanceup, up-setinstanceup, sq_pushstring, sq_get,
    sq_createinstance, sq_setinstanceup, sq_remove,
  }

  ensure_registered-known :
      (c : SquirrelScriptContext api) (desc : Pointer) {i : Pointer}
      → find_class_info desc c.classes ≡ some i
      → ensure_registered api described desc c ≡ ok c
  unfolding ensure_registered
  ensure_registered-known c desc registered = ground (arith, registered)

  -- With a number on the top, as after the push of a result, `PushNewScriptObject` of a registered
  -- class stops in its assertion.
  pub push_new_script_object-integer :
      (s : SquirrelScriptStack api) (desc i : Pointer) (d : ClassDesc) (p : Option Pointer)
      (v : CInt) (below : List Value)
      → find_class_info desc s.context.classes ≡ some i
      → described desc ≡ some d
      → stack s.context.vm ≡ integer v ∷ below
      → push_new_script_object api described desc p s ≡ stop assertion
  unfolding push_new_script_object new_object
  push_new_script_object-integer s desc i d p v below registered lies holds =
      let l = sq_pushstring d.name s.context.vm in
      let ready : stack l ≡ text d.name ∷ integer v ∷ below =
        stack-pushstring d.name s.context.vm ∙ ap (λ (vs : List Value). text d.name ∷ vs) holds in
      let (w, ws, left, other) = stack-get_integer l ready in
      let kind =
        gettype-value (from_top 1) (sq_get (from_top 2) l) {v = w}
          (ap (value_at (from_top 1)) left) in
      let (w', made, is) = fresh_object s.context.objects p in
      rw (
        ensure_registered-known s.context desc registered,
        made,
        lies,
        kind,
        not_class (type_of w) other,
      )

  -- With the root table on the top, `PushNewScriptObject` of a registered class pushes a new instance
  -- that leads to a new object with this user object, and returns that object. The instance has no
  -- release hook, so that nothing deletes the object when the instance is collected.
  pub push_new_script_object-root :
      (s : SquirrelScriptStack api) (desc i : Pointer) (d : ClassDesc) (k : ℕ) (p : Option Pointer)
      (below : List Value)
      → find_class_info desc s.context.classes ≡ some i
      → described desc ≡ some d
      → stack s.context.vm ≡ root_table ∷ below
      → slot s.context.vm none d.name ≡ some (class_value k)
      → (t : SquirrelScriptStack api) × (n : ℕ) × (push_new_script_object api described desc p s
          ≡ ok (some s.context.objects.next, t))
        × (stack t.context.vm ≡ instance_value n ∷ root_table ∷ below)
        × (t.num_pushed ≡ s.num_pushed + 1)
        × (instance_up t.context.vm n ≡ some s.context.objects.next)
        × (t.context.objects.at s.context.objects.next
            ≡ some (record { object_ptr = p; locked_by_script = false }))
        × (collected_by_hook t.context.vm n ≡ false)
  unfolding push_new_script_object new_object
  push_new_script_object-root s desc i d k p below registered lies holds bound =
      let o = s.context.objects.next in
      let l = sq_pushstring d.name s.context.vm in
      let ready : stack l ≡ text d.name ∷ root_table ∷ below =
        stack-pushstring d.name s.context.vm ∙ ap (λ (vs : List Value). text d.name ∷ vs) holds in
      let found : slot l none d.name ≡ some (class_value k) =
        ap (λ (f : Option ℕ → Bytes → Option Value). f none d.name)
          (slot-pushstring d.name s.context.vm)
        ∙ bound in
      let l1 = sq_get (from_top 2) l in
      let left : stack l1 ≡ class_value k ∷ root_table ∷ below =
        stack-get l ready ∙ rw found refl in
      let kind =
        gettype-value (from_top 1) l1 {v = class_value k} (ap (value_at (from_top 1)) left) in
      let (n, made, unhooked) = createinstance l1 left in
      let l2 = sq_createinstance (from_top 1) l1 in
      let l3 = sq_setinstanceup (from_top 1) o l2 in
      let l4 = sq_remove (from_top 2) l3 in
      let (w', stored, is) = fresh_object s.context.objects p in
      (
        record s {
          context = record s.context { vm = l4; objects = w' };
          num_pushed = s.num_pushed + 1;
        },
        n,
        rw (ensure_registered-known s.context desc registered, stored, lies, kind),
        stack-remove l3 (stack-setinstanceup (from_top 1) o l2 ∙ made),
        refl,
        ap (λ (g : ℕ → Option Pointer). g n) (up-remove (from_top 2) l3)
            ∙ up-setinstanceup (from_top 1) o l2 (ap (value_at (from_top 1)) made),
        is,
        ap (λ (g : ℕ → Bool). g n)
              (hook-remove (from_top 2) l3 ∙ hook-setinstanceup (from_top 1) o l2)
            ∙ unhooked,
      )
