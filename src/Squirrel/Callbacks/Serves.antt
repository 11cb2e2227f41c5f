-- ===== src/Squirrel/Callbacks/Serves.antt =====
-- Methods and constructors in C++ that deal in integers, as the Squirrel engine calls them.
use multi_script.Prelude.{
  ◌≢◌, false, if◌then◌else◌, ℕ, ◌^◌, ◌<◌, ◌≡◌, refl, ap, ◌∙◌, true, Option, none, some, List, [],
  ◌∷◌, map, reverse, length, get_elem?, drop, arith, ◌==◌,
}
use multi_script.Outcome.{ok}
use multi_script.Interface.Program.{CInt, Pointer, Program}
use multi_script.Interface.Frame.{Frame, frame, serve}
use multi_script.Interface.Shared.{Classes, any_room}
use multi_script.Interface.Desc.{ClassMethodDesc}
use multi_script.Interface.Objects.{ScriptObject, Objects, new_object, update}
use multi_script.Interface.Lifecycle.Locked.{set_object_ptr-live}
use multi_script.Interface.Lifecycle.Fresh.{new_object-at, new_object-others, update_other}
use multi_script.Squirrel.Api.{
  SquirrelApi, Value, user_pointer, integer, instance_value, from_top, value_at,
}
use multi_script.Squirrel.Context.{SquirrelScriptContext, with_vm, SquirrelClassInfo}
use multi_script.Squirrel.Stack.Frames.{frame_values, run-frame}
use multi_script.Squirrel.Callbacks.{
  squirrel_class_method_callback, squirrel_class_constructor_callback,
}
use multi_script.Squirrel.Callbacks.Invocation.{Invocation, pop_class_info-top, this_object-live}

module _ (api : SquirrelApi) (described : Classes) where
  open api use {
    State, stack, instance_up, collected_by_hook, sq_pop, up-pop, stack-pop, gettype-value,
    getinteger-value, stack-setinstanceup, up-setinstanceup, stack-setreleasehook,
    up-setreleasehook, hook-setreleasehook, sq_setinstanceup, sq_setreleasehook,
  }

  -- A method of the protocol that deals in integers, called from Squirrel on a live object with
  -- these arguments, runs on that object and pops its arguments last to first. The callback returns
  -- the number of its results, and leaves these on the stack above the arguments left and the
  -- instance, and nothing else in the context changes.
  pub squirrel_class_method_callback-serve :
      (c : SquirrelScriptContext api) {info : Pointer} {i : SquirrelClassInfo} {o p : Pointer}
      {x : ScriptObject} (index : CInt) (m : ClassMethodDesc) (args : List CInt) {f : Frame}
      (is : Invocation api c info i o x (integer index ∷ map integer (reverse args)))
      → x.object_ptr ≡ some p
      → get_elem? i.class.methods index ≡ some m
      → length (reverse args) < 2 ^ 31
      → serve any_room (m.method o) (reverse args) [] ≡ some (true, f)
      → (c' : SquirrelScriptContext api) × (squirrel_class_method_callback api described c
          ≡ ok (length f.results, c'))
        × (stack c'.vm ≡ frame_values f.params f.results (instance_value is.handle))
        × (c' ≡ with_vm api c c'.vm)
  unfolding squirrel_class_method_callback
  squirrel_class_method_callback-serve c {o} index m args {f} is set known few e =
      let this = instance_value is.handle in
      let (popped, left) = pop_class_info-top api c is.frame is.known in
      let l1 = sq_pop 1 c.vm in
      let number : value_at (from_top 1) (stack l1) ≡ some (integer index) =
        ap (value_at (from_top 1)) left in
      let holds : stack (sq_pop 1 l1) ≡ frame_values (reverse args) [] this =
        stack-pop 1 l1 (omega (arith, ap (length {0} {A = Value}) left)) ∙ ap (drop 1) left in
      let up : instance_up (sq_pop 1 l1) is.handle ≡ some o =
        ap (λ (g : ℕ → Option Pointer). g is.handle) (up-pop 1 l1 ∙ up-pop 1 c.vm) ∙ is.up in
      let c2 = record c { vm = sq_pop 1 l1 } in
      let found = this_object-live api c2 (map integer (reverse args)) holds up is.live set in
      let (t, ran, ends) = run-frame api described this c2 (m.method o) args holds refl few e in
      (
        t.context,
        rw (
          popped,
          gettype-value (from_top 1) l1 number,
          getinteger-value (from_top 1) l1 number,
          found,
          known,
          ran,
          ends.pushed,
        ),
        ends.holds,
        ends.rest,
      )

  -- A constructor that takes all its arguments, pushes nothing and makes a user object: the new
  -- script object holds that user object, and the instance leads to it and is given the release
  -- hook of the binding. The other objects are as before.
  pub squirrel_class_constructor_callback-serve :
      (c : SquirrelScriptContext api) (info : Pointer) (i : SquirrelClassInfo) (n : ℕ)
      (args : List CInt) {p : Pointer} {constructor : Pointer → Program (Option Pointer)}
      → stack c.vm ≡ user_pointer info ∷ frame_values (reverse args) [] (instance_value n)
      → get_elem? c.classes info ≡ some i
      → i.class.constructor ≡ some constructor
      → length (reverse args) < 2 ^ 31
      → serve any_room (constructor c.objects.next) (reverse args) [] ≡ some (some p, frame [] [])
      → (c' : SquirrelScriptContext api) × (squirrel_class_constructor_callback api described c
          ≡ ok (0, c'))
        × (stack c'.vm ≡ instance_value n ∷ [])
        × (instance_up c'.vm n ≡ some c.objects.next)
        × (collected_by_hook c'.vm n ≡ true)
        × (c'.objects.at c.objects.next
            ≡ some (record { object_ptr = some p; locked_by_script = false }))
        × ((q : Pointer) → q ≢ c.objects.next → c'.objects.at q ≡ c.objects.at q)
        × (c'.class_info c.objects.next ≡ some info)
  unfolding squirrel_class_constructor_callback
  squirrel_class_constructor_callback-serve c info i n args {p} {constructor} holds known makes few
        e =
      let this = instance_value n in
      let o = c.objects.next in
      let (popped, left) = pop_class_info-top api c holds known in
      let (o', w) = new_object c.objects in
      let c2 = record c {
        vm = sq_pop 1 c.vm;
        objects = w;
        class_info = λ q. if o == q then some info else c.class_info q;
      } in
      let (t, ran, ends) = run-frame api described this c2 (constructor o) args left refl few e in
      let l = t.context.vm in
      let l1 = sq_setinstanceup (from_top 1) o l in
      let fresh : ScriptObject = record { object_ptr = none; locked_by_script = false } in
      let made : ScriptObject = record { object_ptr = some p; locked_by_script = false } in
      let world : t.context.objects ≡ w =
        ap (λ (d : SquirrelScriptContext api). d.objects) ends.rest in
      let live : t.context.objects.at o ≡ some fresh =
        ap (λ (v : Objects). v.at o) world ∙ new_object-at c.objects in
      let top : value_at (from_top 1) (stack l) ≡ some this =
        ap (value_at (from_top 1)) ends.holds in
      let same : stack l1 ≡ stack l = stack-setinstanceup (from_top 1) o l in
      (
        record t.context {
          vm = sq_setreleasehook (from_top 1) l1;
          objects = record t.context.objects { at = update t.context.objects.at o (some made) };
        },
        rw (popped, makes, ran, set_object_ptr-live o t.context.objects live (some p), ends.pushed),
        stack-setreleasehook (from_top 1) l1 ∙ same ∙ ends.holds,
        ap (λ (g : ℕ → Option Pointer). g n) (up-setreleasehook (from_top 1) l1)
            ∙ up-setinstanceup (from_top 1) o l top,
        hook-setreleasehook (from_top 1) l1 (ap (value_at (from_top 1)) same ∙ top),
        ground arith,
        λ q ne.
            update_other t.context.objects.at o (some made) q ne
            ∙ ap (λ (v : Objects). v.at q) world
            ∙ new_object-others c.objects q ne,
        ap (λ (d : SquirrelScriptContext api). d.class_info o) ends.rest ∙ ground arith,
      )
