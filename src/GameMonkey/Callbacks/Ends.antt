-- ===== src/GameMonkey/Callbacks/Ends.antt =====
-- `Destroy` and the garbage collection of a script object, as the Game Monkey engine calls them.
use multi_script.Prelude.{◌≡◌, refl, false, Option, none, some, [], ◌∷◌, get_elem?}
use multi_script.Outcome.{ok}
use multi_script.Interface.Program.{Pointer}
use multi_script.Interface.Objects.{ScriptObject, Teardown}
use multi_script.Interface.Lifecycle.Locked.{Keeps, Kept, load-live}
use multi_script.Interface.Lifecycle.Ends.{
  Gone, destroy_object-Kept, collect_object-Gone, collection_runs, delete-Gone,
}
use multi_script.GameMonkey.Api.{GmApi}
use multi_script.GameMonkey.Context.{GmScriptContext, GmScriptObject, GmClassInfo}
use multi_script.GameMonkey.Callbacks.{gm_class_destructor_callback, gm_class_gc_callback, info_of}

module _ (api : GmApi) where
  open api use {State, this_user}

  -- A live script object of this binding, with its class and the user's destructor.
  pub record Owned (c : GmScriptContext api) (o : Pointer) (x : ScriptObject) (i : GmClassInfo)
      (d : Pointer → Teardown) : Type 0 where
    pub made : GmScriptObject
    pub linked : c.gm_objects o ≡ some made
    pub known : get_elem? c.classes made.class_info ≡ some i
    pub destroys : i.class.destructor ≡ some d
    pub keeps : Keeps o (d o)
    pub live : c.objects.at o ≡ some x

  module _ (c : GmScriptContext api) {o : Pointer} {x : ScriptObject} {i : GmClassInfo}
      {d : Pointer → Teardown} (is : Owned c o x i d) where
    info_of-Owned : info_of api o c ≡ ok i
    unfolding info_of
    info_of-Owned = rw (is.linked, is.known)

    -- `Destroy` called on an object runs the user's destructor once, whether or not it was destroyed
    -- before, and leaves the object alive, unlocked and with a null pointer; no other object changes.
    pub gm_class_destructor_callback-Kept :
        this_user c.machine ≡ some o
        → (c' : GmScriptContext api) × (gm_class_destructor_callback api c ≡ ok c')
          × (k : Kept o false (o ∷ []) c.objects c'.objects) × (k.value.object_ptr ≡ none)
    unfolding gm_class_destructor_callback
    gm_class_destructor_callback-Kept this =
        let (w, done, kept, cleared) = destroy_object-Kept o d c.objects x is.keeps is.live in
        (record c { objects = w }, rw (this, info_of-Owned, is.destroys, done), kept, cleared)

    gc_callback-with :
        (q : Option Pointer)
        → x.object_ptr ≡ q
        → (c' : GmScriptContext api) × (gm_class_gc_callback api (some o) c ≡ ok c')
          × Gone o (collection_runs i.class.garbage_collect o q) c.objects c'.objects
    unfolding gm_class_gc_callback
    gc_callback-with none null =
        let (w, deleted, gone) = delete-Gone o c.objects x is.live in
        (record c { objects = w }, rw (load-live o c.objects is.live, null, deleted), gone)
    gc_callback-with (some q) set =
        let (w, collected, gone) =
          collect_object-Gone o i.class.garbage_collect d c.objects x (some q) is.keeps is.live
            set in
        (
          record c { objects = w },
          rw (load-live o c.objects is.live, set, info_of-Owned, is.destroys, collected),
          gone,
        )

    -- The garbage collection callback deletes the object, and runs the user's destructor before that
    -- exactly if the object was not destroyed and its class is garbage collected.
    pub gm_class_gc_callback-Gone :
        (c' : GmScriptContext api) × (gm_class_gc_callback api (some o) c ≡ ok c')
        × Gone o (collection_runs i.class.garbage_collect o x.object_ptr) c.objects c'.objects
    gm_class_gc_callback-Gone = gc_callback-with x.object_ptr refl
