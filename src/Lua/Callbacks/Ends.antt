-- ===== src/Lua/Callbacks/Ends.antt =====
-- `Destroy` and the garbage collection of a script object, as the Lua engine calls them.
use multi_script.Prelude.{
  ◌≡◌, refl, ap, ◌∙◌, true, false, Option, none, some, List, [], ◌∷◌, get_elem?,
}
use multi_script.Outcome.{ok}
use multi_script.Interface.Program.{Pointer}
use multi_script.Interface.Objects.{ScriptObject, Teardown}
use multi_script.Interface.Lifecycle.Locked.{Keeps, Kept, load-live}
use multi_script.Interface.Lifecycle.Ends.{
  Gone, destroy_object-Kept, collect_object-Gone, collection_runs, delete-Gone,
}
use multi_script.Lua.Api.{
  LuaApi, Value, light, userdata, absolute, value_at, is_userdata, userdata_address,
}
use multi_script.Lua.Context.{LuaScriptContext, LuaClassInfo}
use multi_script.Lua.Stack.{script_object_at}
use multi_script.Lua.Callbacks.{
  pop_object_data, lua_class_destructor_callback, lua_class_gc_callback,
}

module _ (api : LuaApi) where
  open api use {
    State, stack, block, lua_isuserdata, lua_touserdata, lua_remove, isuserdata-value,
    touserdata-value,
  }

  -- The callback of a method of the object at `o`, whose userdata is the only argument, in a class
  -- whose info the closure carries.
  pub record Called (c : LuaScriptContext api) (info : Pointer) (class : LuaClassInfo) (o : Pointer)
      (x : ScriptObject) (d : Pointer → Teardown) : Type 0 where
    pub address : Pointer
    pub argument : stack c.lua ≡ userdata address ∷ []
    pub holds : block c.lua address ≡ some o
    pub known : get_elem? c.classes info ≡ some class
    pub destroys : class.class.destructor ≡ some d
    pub live : c.objects.at o ≡ some x
    pub keeps : Keeps o (d o)

  module _ (c : LuaScriptContext api) {info : Pointer} {class : LuaClassInfo} {o : Pointer}
      {x : ScriptObject} {d : Pointer → Teardown} (is : Called c info class o x d) where
    pop_object_data-argument :
        pop_object_data api c ≡ ok (o, record c { lua = lua_remove (absolute 1) c.lua })
    unfolding pop_object_data
    pop_object_data-argument =
        let there : lua_isuserdata (absolute 1) c.lua ≡ true =
          isuserdata-value (absolute 1) c.lua
          ∙ ap (λ (vs : List Value). is_userdata (value_at (absolute 1) vs)) is.argument in
        let address : lua_touserdata (absolute 1) c.lua ≡ some is.address =
          touserdata-value (absolute 1) c.lua
          ∙ ap (λ (vs : List Value). userdata_address (value_at (absolute 1) vs)) is.argument in
        rw (there, address, script_object_at, is.holds)

    -- `Destroy` called on an object runs the user's destructor once, and leaves the object alive,
    -- unlocked and with a null pointer; no other object changes.
    pub lua_class_destructor_callback-Kept :
        (c' : LuaScriptContext api) × (lua_class_destructor_callback api (light info) c
          ≡ ok (0, c'))
        × (k : Kept o false (o ∷ []) c.objects c'.objects) × (k.value.object_ptr ≡ none)
    unfolding lua_class_destructor_callback
    lua_class_destructor_callback-Kept =
        let (w, done, kept, cleared) = destroy_object-Kept o d c.objects x is.keeps is.live in
        (
          record c { lua = lua_remove (absolute 1) c.lua; objects = w },
          rw (is.known, pop_object_data-argument, is.destroys, done),
          kept,
          cleared,
        )

    gc_callback-with :
        (p : Option Pointer)
        → x.object_ptr ≡ p
        → (c' : LuaScriptContext api) × (lua_class_gc_callback api (light info) c ≡ ok (0, c'))
          × Gone o (collection_runs class.class.garbage_collect o p) c.objects c'.objects
    unfolding lua_class_gc_callback
    gc_callback-with none null =
        let (w, deleted, gone) = delete-Gone o c.objects x is.live in
        (
          record c { lua = lua_remove (absolute 1) c.lua; objects = w },
          rw (pop_object_data-argument, load-live o c.objects is.live, null, deleted),
          gone,
        )
    gc_callback-with (some q) set =
        let (w, collected, gone) =
          collect_object-Gone o class.class.garbage_collect d c.objects x (some q) is.keeps is.live
            set in
        (
          record c { lua = lua_remove (absolute 1) c.lua; objects = w },
          rw (
            pop_object_data-argument,
            load-live o c.objects is.live,
            set,
            is.known,
            is.destroys,
            collected,
          ),
          gone,
        )

    -- The garbage collection callback deletes the object, and runs the user's destructor before
    -- that exactly if the object was not destroyed and its class is garbage collected.
    pub lua_class_gc_callback-Gone :
        (c' : LuaScriptContext api) × (lua_class_gc_callback api (light info) c ≡ ok (0, c'))
        × Gone o (collection_runs class.class.garbage_collect o x.object_ptr) c.objects c'.objects
    unfolding lua_class_gc_callback
    lua_class_gc_callback-Gone = gc_callback-with x.object_ptr refl
