-- ===== src/GameMonkey/Callbacks/Serves.antt =====
-- Methods and constructors in C++ that deal in integers, as the Game Monkey engine calls them.
use multi_script.Prelude.{
  ℕ, ◌≡◌, ◌≢◌, refl, ap, ◌∙◌, true, false, Option, none, some, List, [], ◌∷◌, ◌++◌, map, reverse,
  get_elem?, arith, ◌==◌, if◌then◌else◌,
}
use multi_script.Outcome.{ok}
use multi_script.Interface.Program.{CInt, Pointer, Program}
use multi_script.Interface.Frame.{Frame, frame, serve}
use multi_script.Interface.Shared.{Classes, any_room}
use multi_script.Interface.Uncounted.{Uncounted}
use multi_script.Interface.Desc.{ClassMethodDesc}
use multi_script.Interface.Objects.{ScriptObject, Objects, new_object, update}
use multi_script.Interface.Lifecycle.Locked.{load-live, set_object_ptr-live}
use multi_script.Interface.Lifecycle.Fresh.{new_object-at, new_object-others, update_other}
use multi_script.GameMonkey.Api.{GmApi, Value, integer, user, class_info, method_info}
use multi_script.GameMonkey.Context.{GmScriptContext, GmClassInfo, GmScriptObject}
use multi_script.GameMonkey.Stack.{push_object}
use multi_script.GameMonkey.Stack.Frames.{run-frame}
use multi_script.GameMonkey.Callbacks.{
  live_object, gm_class_method_callback, gm_class_constructor_callback,
}

module _ (api : GmApi) (described : Classes) where
  open api use {
    State, parameters, pushed, user_data, this_user, parameters-table, pushed-table,
    parameters-push_new_user, pushed-push_new_user, user_data-push_new_user, alloc_table_object,
    thread_push_new_user,
  }

  -- A method of the protocol that deals in integers, and does not ask for the number of its
  -- parameters, called from Game Monkey on a live object, runs on that object and pops its arguments
  -- last to first. The callback leaves on the thread all that it pushed, in order, and nothing else
  -- in the context changes.
  pub gm_class_method_callback-serve :
      (c : GmScriptContext api) {o p : Pointer} {x : ScriptObject} (info : Pointer)
      (i : GmClassInfo) (index : ℕ) (m : ClassMethodDesc) (args : List CInt) {f : Frame}
      → this_user c.machine ≡ some o
      → c.objects.at o ≡ some x
      → x.object_ptr ≡ some p
      → get_elem? c.classes info ≡ some i
      → get_elem? i.class.methods index ≡ some m
      → parameters c.machine ≡ map integer args
      → Uncounted (m.method o)
      → serve any_room (m.method o) (reverse args) [] ≡ some (true, f)
      → (c' : GmScriptContext api) × (gm_class_method_callback api described
            (method_info info index)
            c
          ≡ ok c')
        × (pushed c'.machine ≡ map integer (reverse f.results) ++ pushed c.machine)
        × (c' ≡ record c { machine = c'.machine })
  unfolding gm_class_method_callback live_object
  gm_class_method_callback-serve c {o} info i index m args this live set known has holds quiet e =
      let (t, ran, ends) =
        run-frame api described args (pushed c.machine) c (m.method o) holds refl quiet e in
      (t.context, rw (this, load-live o c.objects live, set, known, has, ran), ends.made, ends.rest)

  -- A constructor that takes all its arguments, pushes nothing and makes a user object, and does not
  -- ask for the number of its parameters: the new script object holds that user object and leads to
  -- its class, and a user object of the type of the class is the only value pushed, and has the script
  -- object as its user data. The other objects are as before.
  pub gm_class_constructor_callback-serve :
      (c : GmScriptContext api) (info : Pointer) (i : GmClassInfo) (args : List CInt) {p : Pointer}
      {constructor : Pointer → Program (Option Pointer)}
      → get_elem? c.classes info ≡ some i
      → i.class.constructor ≡ some constructor
      → parameters c.machine ≡ map integer args
      → Uncounted (constructor c.objects.next)
      → serve any_room (constructor c.objects.next) (reverse args) [] ≡ some (some p, frame [] [])
      → (c' : GmScriptContext api) × (u : ℕ) × (made : GmScriptObject)
        × (gm_class_constructor_callback api described (class_info info) c ≡ ok c')
        × (pushed c'.machine ≡ user i.gm_type_id u ∷ pushed c.machine)
        × (user_data c'.machine u ≡ some c.objects.next)
        × (c'.gm_objects c.objects.next ≡ some made)
        × (made.class_info ≡ info)
        × (made.gm_user_object ≡ u)
        × (c'.objects.at c.objects.next
            ≡ some (record { object_ptr = some p; locked_by_script = false }))
        × ((q : Pointer) → q ≢ c.objects.next → c'.objects.at q ≡ c.objects.at q)
  unfolding gm_class_constructor_callback push_object
  gm_class_constructor_callback-serve c info i args {p} {constructor} known makes holds quiet e =
      let o = c.objects.next in
      let (table, m1) = alloc_table_object c.machine in
      let (u, m2) = thread_push_new_user o i.gm_type_id m1 in
      let made : GmScriptObject = record {
        class_info = info;
        gm_table = table;
        gm_user_object = u;
      } in
      let (o', w) = new_object c.objects in
      let c1 : GmScriptContext api = record c {
        machine = m2;
        objects = w;
        gm_objects = λ q. if o == q then some made else c.gm_objects q;
      } in
      let start : pushed m2 ≡ user i.gm_type_id u ∷ pushed c.machine =
        pushed-push_new_user o i.gm_type_id m1
        ∙ ap (λ (vs : List Value). user i.gm_type_id u ∷ vs) (pushed-table c.machine) in
      let args_there : parameters m2 ≡ map integer args =
        parameters-push_new_user o i.gm_type_id m1 ∙ parameters-table c.machine ∙ holds in
      let (t, ran, ends) =
        run-frame api described args (user i.gm_type_id u ∷ pushed c.machine) c1 (constructor o)
          args_there start quiet e in
      let fresh : ScriptObject = record { object_ptr = none; locked_by_script = false } in
      let kept : ScriptObject = record { object_ptr = some p; locked_by_script = false } in
      let world : t.context.objects ≡ w = ap (λ (d : GmScriptContext api). d.objects) ends.rest in
      let live : t.context.objects.at o ≡ some fresh =
        ap (λ (v : Objects). v.at o) world ∙ new_object-at c.objects in
      (
        record t.context {
          objects = record t.context.objects { at = update t.context.objects.at o (some kept) };
        },
        u,
        made,
        rw (known, makes, ran, set_object_ptr-live o t.context.objects live (some p)),
        ends.made,
        ap (λ (f : ℕ → Option Pointer). f u) ends.users ∙ user_data-push_new_user o i.gm_type_id m1,
        ap (λ (d : GmScriptContext api). d.gm_objects o) ends.rest ∙ ground arith,
        refl,
        refl,
        ground arith,
        λ q ne.
            update_other t.context.objects.at o (some kept) q ne
            ∙ ap (λ (v : Objects). v.at q) world
            ∙ new_object-others c.objects q ne,
      )
