-- ===== src/Squirrel/Callbacks/Ends.antt =====
-- `Destroy` and the garbage collection of a script object, as the Squirrel engine calls them.
use multi_script.Prelude.{
  ℕ, false, ◌≡◌, refl, ap, ◌∙◌, Option, none, some, List, [], ◌∷◌, ◌++◌, get_elem?,
}
use multi_script.Outcome.{ok, stop, assertion}
use multi_script.Interface.Program.{Pointer}
use multi_script.Interface.Objects.{ScriptObject, Teardown}
use multi_script.Interface.Lifecycle.Locked.{Keeps, Kept, load-live}
use multi_script.Interface.Lifecycle.Ends.{
  Gone, destroy_object-Kept, collect_object-Gone, collection_runs, delete-Gone,
}
use multi_script.Squirrel.Api.{SquirrelApi, Value, instance_value, user_pointer}
use multi_script.Squirrel.Context.{SquirrelScriptContext, SquirrelClassInfo}
use multi_script.Squirrel.Callbacks.{
  squirrel_class_destructor_callback, squirrel_class_gc_callback,
  squirrel_class_to_string_method_callback,
}
use multi_script.Squirrel.Callbacks.Invocation.{
  Invocation, pop_class_info-top, this_object-live, this_object-destroyed,
}

module _ (api : SquirrelApi) where
  open api use {State, stack, instance_up, sq_pop, up-pop}

  up_kept :
      (c : SquirrelScriptContext api) {o : Pointer} {n : ℕ}
      → instance_up c.vm n ≡ some o
      → instance_up (sq_pop 1 c.vm) n ≡ some o
  up_kept c {o} {n} up = ap (λ (f : ℕ → Option Pointer). f n) (up-pop 1 c.vm) ∙ up

  -- `Destroy` called on an object that was not destroyed runs the user's destructor once, and leaves
  -- the object alive, unlocked and with a null pointer; no other object changes, and the instance
  -- leads to the object as before.
  pub squirrel_class_destructor_callback-Kept :
      (c : SquirrelScriptContext api) {info : Pointer} {i : SquirrelClassInfo} {o p : Pointer}
      {x : ScriptObject} {vs : List Value} {d : Pointer → Teardown}
      (is : Invocation api c info i o x vs)
      → i.class.destructor ≡ some d
      → Keeps o (d o)
      → x.object_ptr ≡ some p
      → (c' : SquirrelScriptContext api) × (squirrel_class_destructor_callback api c ≡ ok (0, c'))
        × (k : Kept o false (o ∷ []) c.objects c'.objects) × (k.value.object_ptr ≡ none)
        × (instance_up c'.vm is.handle ≡ some o)
        × (c'.classes ≡ c.classes)
  unfolding squirrel_class_destructor_callback
  squirrel_class_destructor_callback-Kept c {o} {x} {vs} {d} is destroys keeps set =
      let (popped, left) = pop_class_info-top api c is.frame is.known in
      let up = up_kept c is.up in
      let c1 = record c { vm = sq_pop 1 c.vm } in
      let found = this_object-live api c1 vs left up is.live set in
      let (w, done, kept, cleared) = destroy_object-Kept o d c.objects x keeps is.live in
      (record c1 { objects = w }, rw (popped, found, destroys, done), kept, cleared, up, refl)

  -- On an object that was destroyed, `Destroy` and the conversion to a string stop in an assertion.
  pub squirrel_object-destroyed :
      (c : SquirrelScriptContext api) {info : Pointer} {i : SquirrelClassInfo} {o : Pointer}
      {x : ScriptObject} {vs : List Value}
      → Invocation api c info i o x vs
      → x.object_ptr ≡ none
      → (squirrel_class_destructor_callback api c ≡ stop assertion)
        × (squirrel_class_to_string_method_callback api c ≡ stop assertion)
  unfolding squirrel_class_destructor_callback squirrel_class_to_string_method_callback
  squirrel_object-destroyed c {vs} is null =
      let (popped, left) = pop_class_info-top api c is.frame is.known in
      let refused =
        this_object-destroyed api (record c { vm = sq_pop 1 c.vm }) vs left (up_kept c is.up)
          is.live null in
      (rw (popped, refused), rw (popped, refused))

  -- After a `Destroy`, a second `Destroy` of the same object, from a frame with any arguments, and
  -- its conversion to a string, stop in an assertion.
  pub squirrel_class_destructor_callback_twice :
      (c : SquirrelScriptContext api) {info : Pointer} {i : SquirrelClassInfo} {o p : Pointer}
      {x : ScriptObject} {vs : List Value} {d : Pointer → Teardown}
      (is : Invocation api c info i o x vs) (l : State) (ws : List Value)
      → i.class.destructor ≡ some d
      → Keeps o (d o)
      → x.object_ptr ≡ some p
      → stack l ≡ user_pointer info ∷ ws ++ instance_value is.handle ∷ []
      → instance_up l ≡ instance_up c.vm
      → (c' : SquirrelScriptContext api) × (squirrel_class_destructor_callback api c ≡ ok (0, c'))
        × (squirrel_class_destructor_callback api (record c' { vm = l }) ≡ stop assertion)
        × (squirrel_class_to_string_method_callback api (record c' { vm = l }) ≡ stop assertion)
  squirrel_class_destructor_callback_twice c {info} {i} {o} is l ws destroys keeps set frame ups =
      let (c', done, kept, cleared, up, same) =
        squirrel_class_destructor_callback-Kept c is destroys keeps set in
      let (refused, refused_text) =
        squirrel_object-destroyed (record c' { vm = l }) {i = i} {o = o} {x = kept.value} {vs = ws}
          (record {
            handle = is.handle;
            frame = frame;
            known = ap (λ (infos : List SquirrelClassInfo). get_elem? infos info) same ∙ is.known;
            up = ap (λ (f : ℕ → Option Pointer). f is.handle) ups ∙ is.up;
            live = kept.live;
          })
          cleared in
      (c', done, refused, refused_text)

  gc_callback-with :
      (c : SquirrelScriptContext api) {info : Pointer} {i : SquirrelClassInfo} {o : Pointer}
      {x : ScriptObject} {d : Pointer → Teardown}
      → c.class_info o ≡ some info
      → get_elem? c.classes info ≡ some i
      → i.class.destructor ≡ some d
      → Keeps o (d o)
      → c.objects.at o ≡ some x
      → (q : Option Pointer) → x.object_ptr ≡ q
      → (c' : SquirrelScriptContext api) × (squirrel_class_gc_callback api o c ≡ ok (0, c'))
        × Gone o (collection_runs i.class.garbage_collect o q) c.objects c'.objects
  unfolding squirrel_class_gc_callback
  gc_callback-with c {o} {x} linked known destroys keeps live none null =
      let (w, deleted, gone) = delete-Gone o c.objects x live in
      (record c { objects = w }, rw (load-live o c.objects live, null, deleted), gone)
  gc_callback-with c {i} {o} {x} {d} linked known destroys keeps live (some q) set =
      let (w, collected, gone) =
        collect_object-Gone o i.class.garbage_collect d c.objects x (some q) keeps live set in
      (
        record c { objects = w },
        rw (load-live o c.objects live, set, linked, known, destroys, collected),
        gone,
      )

  -- The release hook of an instance deletes its object, and runs the user's destructor before that
  -- exactly if the object was not destroyed and its class is garbage collected.
  pub squirrel_class_gc_callback-Gone :
      (c : SquirrelScriptContext api) {info : Pointer} {i : SquirrelClassInfo} {o : Pointer}
      {x : ScriptObject} {d : Pointer → Teardown}
      → c.class_info o ≡ some info
      → get_elem? c.classes info ≡ some i
      → i.class.destructor ≡ some d
      → Keeps o (d o)
      → c.objects.at o ≡ some x
      → (c' : SquirrelScriptContext api) × (squirrel_class_gc_callback api o c ≡ ok (0, c'))
        × Gone o (collection_runs i.class.garbage_collect o x.object_ptr) c.objects c'.objects
  squirrel_class_gc_callback-Gone c {x} linked known destroys keeps live =
      gc_callback-with c linked known destroys keeps live x.object_ptr refl
