-- ===== src/Tests/ObjectRuns.antt =====
-- The theorems on script objects and on the choice of a language at concrete inputs.
use multi_script.Prelude.{◌≡◌, refl, true, false, none, some, [], ◌∷◌}
use multi_script.Outcome.{ok}
use multi_script.Interface.Program.{Pointer}
use multi_script.Interface.Objects.{
  ScriptObject, Objects, Teardown, release_object, finish, read_object_ptr,
}
use multi_script.Interface.Lifecycle.{end_of_life}
use multi_script.Interface.Lifecycle.Ends.{Gone, end_of_life-Gone}
use multi_script.Interface.Pointers.Ownership.{own_all, own_all-releases, without, IsFree}

abbrev object : ScriptObject
object = record { object_ptr = some 77; locked_by_script = false }

abbrev store : Objects
store = record { at = λ q. some object; next = 9; destructed = [] }

-- Reads the user's pointer, and releases its script object twice.
abbrev releases_twice : Pointer → Teardown
releases_twice o = read_object_ptr o λ p. release_object o (release_object o finish)

end_of_life-Gone_example :
    (w : Objects) × (end_of_life 2 true releases_twice 5 store ≡ ok w) × Gone 5 (5 ∷ 5 ∷ []) store w
end_of_life-Gone_example =
    end_of_life-Gone 2 5 true releases_twice store object {p = 77} (refl, λ p. (refl, (refl, tt)))
      refl refl

abbrev store-IsFree : (o : Pointer) → IsFree store o
store-IsFree o = record { value = object; live = refl; unlocked = refl }

own_all-releases_example :
    own_all none (5 ∷ 6 ∷ []) store ≡ ok (record store { at = without (5 ∷ 6 ∷ []) store.at })
own_all-releases_example =
    own_all-releases 5 (6 ∷ []) store (store-IsFree 5, refl, (store-IsFree 6, refl, tt))
