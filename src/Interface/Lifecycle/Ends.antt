-- ===== src/Interface/Lifecycle/Ends.antt =====
-- A script object is deleted once, however its destructor releases it, and the user's destructor
-- runs as often as the class description says.
use multi_script.Prelude.{
  ℕ, zero, suc, ◌≡◌, ◌≢◌, refl, sym, ap, ◌∙◌, Bool, true, false, Option, none, some, List, [], ◌∷◌,
  ◌++◌, append_assoc, append-nil, replicate, arith,
}
use multi_script.Outcome.{ok}
use multi_script.Interface.Program.{Pointer}
use multi_script.Interface.Objects.{ScriptObject, Objects, Teardown, update, delete}
use multi_script.Interface.Lifecycle.{destroy_object, collect_object, end_of_life}
use multi_script.Interface.Lifecycle.Locked.{
  Keeps, Kept, load-live, delete-live, set_object_ptr-live, set_locked-live, invoke-Kept,
}

-- The store is the old one less this object, but for the invocations.
pub record Gone (o : Pointer) (runs : List Pointer) (w w' : Objects) : Type 0 where
  pub dead : w'.at o ≡ none
  pub others : (q : Pointer) → q ≢ o → w'.at q ≡ w.at q
  pub invoked : w'.destructed ≡ w.destructed ++ runs

-- `Destroy` runs the destructor once and leaves the object, unlocked and with a null pointer.
pub destroy_object-Kept :
    (o : Pointer) (d : Pointer → Teardown) (w : Objects) (x : ScriptObject)
    → Keeps o (d o)
    → w.at o ≡ some x
    → (w' : Objects) × (destroy_object d o w ≡ ok w')
      × (k : Kept o false (o ∷ []) w w') × (k.value.object_ptr ≡ none)
unfolding destroy_object
destroy_object-Kept o d w x keeps live =
    let (w1, w2, locks, runs, is) = invoke-Kept o d w x keeps live in
    let z : ScriptObject = record is.value { locked_by_script = false } in
    let w3 : Objects = record w2 { at = update w2.at o (some z) } in
    let w4 : Objects = record w3 { at = update w3.at o (some (record z { object_ptr = none })) } in
    let there : w3.at o ≡ some z = ground arith in
    (
      w4,
      rw (locks, runs, set_locked-live o w2 is.live false) (set_object_ptr-live o w3 there none),
      record {
        value = record z { object_ptr = none };
        live = ground arith;
        lock = refl;
        others = λ r ne. ground (arith, is.others r ne);
        fresh = is.fresh;
        invoked = is.invoked;
      },
      refl,
    )

pub delete-Gone :
    (o : Pointer) (w : Objects) (x : ScriptObject)
    → w.at o ≡ some x
    → (w' : Objects) × (delete o w ≡ ok w') × Gone o [] w w'
delete-Gone o w x live = (
  record w { at = update w.at o none },
  delete-live o w live,
  record {
    dead = ground arith;
    others = λ r ne. ground arith;
    invoked = sym (append-nil w.destructed);
  },
)

Gone-after :
    {o : Pointer} {locked : Bool} {runs more : List Pointer} {w v u : Objects}
    → Kept o locked runs w v
    → Gone o more v u
    → Gone o (runs ++ more) w u
Gone-after {runs} {more} {w} is gone = record {
  dead = gone.dead;
  others = λ r ne. gone.others r ne ∙ is.others r ne;
  invoked =
      gone.invoked
      ∙ ap (λ (l : List Pointer). l ++ more) is.invoked
      ∙ append_assoc w.destructed runs more;
}

-- Which destructor runs the collection makes.
abbrev pub collection_runs : Bool → Pointer → Option Pointer → List Pointer
collection_runs garbage_collect o none = []
collection_runs true o (some p) = o ∷ []
collection_runs false o (some p) = []

pub collect_object-Gone :
    (o : Pointer) (garbage_collect : Bool) (d : Pointer → Teardown) (w : Objects) (x : ScriptObject)
    (p : Option Pointer)
    → Keeps o (d o)
    → w.at o ≡ some x
    → x.object_ptr ≡ p
    → (w' : Objects) × (collect_object garbage_collect d o w ≡ ok w')
      × Gone o (collection_runs garbage_collect o p) w w'
unfolding collect_object
collect_object-Gone o g d w x none keeps live null =
    let (w', deleted, gone) = delete-Gone o w x live in
    (w', rw (load-live o w live, null) deleted, gone)
collect_object-Gone o false d w x (some p) keeps live set =
    let (w', deleted, gone) = delete-Gone o w x live in
    (w', rw (load-live o w live, set) deleted, gone)
collect_object-Gone o true d w x (some p) keeps live set =
    let (w1, w2, locks, runs, is) = invoke-Kept o d w x keeps live in
    let (w', deleted, gone) = delete-Gone o w2 is.value is.live in
    (w', rw (load-live o w live, set, locks, runs) deleted, Gone-after is gone)

destroyed-Gone :
    (n : ℕ) (o : Pointer) (garbage_collect : Bool) (d : Pointer → Teardown) (w : Objects)
    (x : ScriptObject)
    → Keeps o (d o)
    → w.at o ≡ some x
    → x.object_ptr ≡ none
    → (w' : Objects) × (end_of_life n garbage_collect d o w ≡ ok w') × Gone o (replicate n o) w w'
unfolding end_of_life
destroyed-Gone zero o g d w x keeps live null = collect_object-Gone o g d w x none keeps live null
destroyed-Gone (suc n) o g d w x keeps live null =
    let (v, done, is, cleared) = destroy_object-Kept o d w x keeps live in
    let (w', rest, gone) = destroyed-Gone n o g d v is.value keeps is.live cleared in
    (w', rw done rest, Gone-after is gone)

-- Which destructor runs the whole end makes, for an object that was constructed.
abbrev pub end_runs : ℕ → Bool → Pointer → List Pointer
end_runs zero true o = o ∷ []
end_runs zero false o = []
end_runs (suc n) garbage_collect o = replicate (suc n) o

-- A live object with a user object behind it, whose destructor deals with no other script object:
-- after any number of calls of `Destroy` and the collection it is deleted, once, whether or not the
-- destructor releases it; every other object is as before; and the user's destructor ran once for
-- each `Destroy`, or, if there was none, once exactly if the class is garbage collected.
pub end_of_life-Gone :
    (n : ℕ) (o : Pointer) (garbage_collect : Bool) (d : Pointer → Teardown) (w : Objects)
    (x : ScriptObject) {p : Pointer}
    → Keeps o (d o)
    → w.at o ≡ some x
    → x.object_ptr ≡ some p
    → (w' : Objects) × (end_of_life n garbage_collect d o w ≡ ok w')
      × Gone o (end_runs n garbage_collect o) w w'
unfolding end_of_life
end_of_life-Gone zero o true d w x {p} keeps live set =
    collect_object-Gone o true d w x (some p) keeps live set
end_of_life-Gone zero o false d w x {p} keeps live set =
    collect_object-Gone o false d w x (some p) keeps live set
end_of_life-Gone (suc n) o g d w x keeps live set =
    let (v, done, is, cleared) = destroy_object-Kept o d w x keeps live in
    let (w', rest, gone) = destroyed-Gone n o g d v is.value keeps is.live cleared in
    (w', rw done rest, Gone-after is gone)
