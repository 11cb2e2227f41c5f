-- ===== src/Interface/Objects.antt =====
-- `ScriptObject` and its subclasses in the Lua, Game Monkey and Squirrel bindings: the store of
-- objects, `Release`, and the class descriptions with the user's callbacks.
use multi_script.Prelude.{
  ◌+◌, Bool, false, Option, none, some, List, [], ◌∷◌, ◌++◌, ◌==◌, if◌then◌else◌,
}
use multi_script.Outcome.{Outcome, ok, stop, undefined, ◌>>=◌}
use multi_script.Interface.Program.{Pointer}

-- `m_objectPtr`, and the `m_lockedByScript` of the subclasses.
pub record ScriptObject : Type 0 where
  pub object_ptr : Option Pointer
  pub locked_by_script : Bool

-- The live objects, the address of the next `new`, and for which objects the user's destructor was
-- invoked, in order.
pub record Objects : Type 0 where
  pub at : Pointer → Option ScriptObject
  pub next : Pointer
  pub destructed : List Pointer

abbrev pub update :
    (Pointer → Option ScriptObject) → Pointer → Option ScriptObject → Pointer → Option ScriptObject
update f p v q = if p == q then v else f q

-- `obj->…`: undefined for an object that was deleted.
unfoldable pub load : Pointer → Objects → Outcome ScriptObject
load o w = elim (w.at o) [ none ↦ stop undefined | some x ↦ ok x ]

-- `new …ScriptObject()`
unfoldable pub new_object : Objects → Pointer × Objects
new_object w = (
  w.next,
  record w {
    at = update w.at w.next (some (record { object_ptr = none; locked_by_script = false }));
    next = w.next + 1;
  },
)

unfoldable pub delete : Pointer → Objects → Outcome Objects
unfolding load
delete o w = do load o w >>= λ _. ok (record w { at = update w.at o none })

unfoldable pub set_object_ptr : Pointer → Option Pointer → Objects → Outcome Objects
unfolding load
set_object_ptr o p w = do
  x ← load o w
  ok (record w { at = update w.at o (some (record x { object_ptr = p })) })

unfoldable pub set_locked : Pointer → Bool → Objects → Outcome Objects
unfolding load
set_locked o b w = do
  x ← load o w
  ok (record w { at = update w.at o (some (record x { locked_by_script = b })) })

-- `Release()`
unfoldable pub release : Pointer → Objects → Outcome Objects
unfolding load delete
release o w = do x ← load o w; if x.locked_by_script then ok w else delete o w

-- What a user's destructor does to script objects, as a tree of its accesses; it runs the
-- destructors of the `ScriptObjectPtr` members of what it deletes.
pub data Teardown : Type 0 where
  finish : Teardown
  read_object_ptr : Pointer → (Option Pointer → Teardown) → Teardown
  write_object_ptr : Pointer → Option Pointer → Teardown → Teardown
  release_object : Pointer → Teardown → Teardown

unfoldable pub tear_down : Teardown → Objects → Outcome Objects
unfolding load set_object_ptr release
tear_down finish w = ok w
tear_down (read_object_ptr o k) w = do x ← load o w; tear_down (k x.object_ptr) w
tear_down (write_object_ptr o p k) w = do w' ← set_object_ptr o p w; tear_down k w'
tear_down (release_object o k) w = do w' ← release o w; tear_down k w'

-- `m_destructor(scriptObject)`
unfoldable pub invoke_destructor : (Pointer → Teardown) → Pointer → Objects → Outcome Objects
unfolding tear_down
invoke_destructor d o w = tear_down (d o) (record w { destructed = w.destructed ++ o ∷ [] })
