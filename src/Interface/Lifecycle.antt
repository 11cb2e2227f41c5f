-- ===== src/Interface/Lifecycle.antt =====
-- The end of a script object: the body that the `Destroy` callbacks of the Lua, Game Monkey and
-- Squirrel bindings share, and that of their garbage collection callbacks.
pub mod Ends
pub mod Fresh
pub mod Locked
use multi_script.Prelude.{ℕ, zero, suc, Bool, true, false, Option, none, some, if◌then◌else◌}
use multi_script.Outcome.{Outcome, ok, ◌>>=◌, ◌>>◌}
use multi_script.Interface.Program.{Pointer}
use multi_script.Interface.Objects.{
  Objects, Teardown, load, delete, set_object_ptr, set_locked, invoke_destructor,
}

-- Locks the object, runs the user's destructor, unlocks it, and clears `m_objectPtr`.
unfoldable pub destroy_object : (Pointer → Teardown) → Pointer → Objects → Outcome Objects
unfolding set_locked invoke_destructor set_object_ptr
destroy_object destructor o w0 = do
  w1 ← set_locked o true w0
  w2 ← invoke_destructor destructor o w1
  w3 ← set_locked o false w2
  set_object_ptr o none w3

-- Deletes the object; before that runs the user's destructor, under the lock, if the object was not
-- destroyed yet and its class is garbage collected.
unfoldable pub collect_object : Bool → (Pointer → Teardown) → Pointer → Objects → Outcome Objects
unfolding load delete set_locked invoke_destructor
collect_object garbage_collect destructor o w = do
  x ← load o w
  elim x.object_ptr [
    | none ↦ delete o w
    | some p ↦
        if garbage_collect
        then (do w1 ← set_locked o true w; w2 ← invoke_destructor destructor o w1; delete o w2)
        else delete o w
  ]

-- So many calls of `Destroy` from a script, and then the collection of the object.
unfoldable pub end_of_life : ℕ → Bool → (Pointer → Teardown) → Pointer → Objects → Outcome Objects
unfolding destroy_object collect_object
end_of_life zero garbage_collect destructor o w = collect_object garbage_collect destructor o w
end_of_life (suc n) garbage_collect destructor o w = do
  w' ← destroy_object destructor o w
  end_of_life n garbage_collect destructor o w'
