-- ===== src/Interface/Lifecycle/Locked.antt =====
-- While a callback of a binding holds the lock of a script object, the object outlives its user's
-- destructor.
use multi_script.Prelude.{
  ◌≡◌, ◌≢◌, refl, sym, ◌∙◌, Bool, true, Option, none, some, List, [], ◌∷◌, ◌++◌, append-nil, arith,
}
use multi_script.Outcome.{ok}
use multi_script.Interface.Program.{Pointer}
use multi_script.Interface.Objects.{
  ScriptObject, Objects, Teardown, finish, read_object_ptr, write_object_ptr, release_object,
  update, load, delete, set_object_ptr, set_locked, release, tear_down, invoke_destructor,
}

-- A destructor that deals with no script object but this one.
abbrev pub Keeps : Pointer → Teardown → Type 0
Keeps o finish = Unit
Keeps o (read_object_ptr q k) = (q ≡ o) × ((p : Option Pointer) → Keeps o (k p))
Keeps o (write_object_ptr q p k) = (q ≡ o) × Keeps o k
Keeps o (release_object q k) = (q ≡ o) × Keeps o k

-- The store is the old one but for this object, which is still there, and for the invocations.
pub record Kept (o : Pointer) (locked : Bool) (runs : List Pointer) (w w' : Objects) : Type 0 where
  pub value : ScriptObject
  pub live : w'.at o ≡ some value
  pub lock : value.locked_by_script ≡ locked
  pub others : (q : Pointer) → q ≢ o → w'.at q ≡ w.at q
  pub fresh : w'.next ≡ w.next
  pub invoked : w'.destructed ≡ w.destructed ++ runs

module _ (o : Pointer) (w : Objects) {x : ScriptObject} (live : w.at o ≡ some x) where
  pub load-live : load o w ≡ ok x
  unfolding load
  load-live = ground arith

  pub delete-live : delete o w ≡ ok (record w { at = update w.at o none })
  unfolding delete
  delete-live = ground (arith)

  pub set_object_ptr-live :
      (p : Option Pointer)
      → set_object_ptr o p w
        ≡ ok (record w { at = update w.at o (some (record x { object_ptr = p })) })
  unfolding set_object_ptr
  set_object_ptr-live p = ground (arith)

  pub set_locked-live :
      (b : Bool)
      → set_locked o b w
        ≡ ok (record w { at = update w.at o (some (record x { locked_by_script = b })) })
  unfolding set_locked
  set_locked-live b = ground (arith)

  release-locked : x.locked_by_script ≡ true → release o w ≡ ok w
  unfolding release
  release-locked locked = ground (arith)

-- Under the lock the object outlives its destructor.
tear_down-Kept :
    (o : Pointer) (d : Teardown) (w : Objects) (x : ScriptObject)
    → Keeps o d
    → w.at o ≡ some x
    → x.locked_by_script ≡ true
    → (w' : Objects) × (tear_down d w ≡ ok w') × Kept o true [] w w'
unfolding tear_down
tear_down-Kept o finish w x keeps live locked = (
  w,
  refl,
  record {
    value = x;
    live = live;
    lock = locked;
    others = λ q ne. refl;
    fresh = refl;
    invoked = sym (append-nil w.destructed);
  },
)
tear_down-Kept o (read_object_ptr q k) w x (same, keeps) live locked =
    let (w', ran, is) = tear_down-Kept o (k x.object_ptr) w x (keeps x.object_ptr) live locked in
    (w', rw (same, load-live o w live) ran, is)
tear_down-Kept o (write_object_ptr q p k) w x (same, keeps) live locked =
    let y : ScriptObject = record x { object_ptr = p } in
    let w1 : Objects = record w { at = update w.at o (some y) } in
    let (w', ran, is) = tear_down-Kept o k w1 y keeps (ground arith) locked in
    (
      w',
      rw (same, set_object_ptr-live o w live p) ran,
      record {
        value = is.value;
        live = is.live;
        lock = is.lock;
        others = λ r ne. is.others r ne ∙ ground (arith);
        fresh = is.fresh;
        invoked = is.invoked;
      },
    )
tear_down-Kept o (release_object q k) w x (same, keeps) live locked =
    let (w', ran, is) = tear_down-Kept o k w x keeps live locked in
    (w', rw (same, release-locked o w live locked) ran, is)

-- One destructor run under the lock.
pub invoke-Kept :
    (o : Pointer) (d : Pointer → Teardown) (w : Objects) (x : ScriptObject)
    → Keeps o (d o)
    → w.at o ≡ some x
    → (w1 w2 : Objects) × (set_locked o true w ≡ ok w1)
      × (invoke_destructor d o w1 ≡ ok w2)
      × Kept o true (o ∷ []) w w2
unfolding invoke_destructor
invoke-Kept o d w x keeps live =
    let y : ScriptObject = record x { locked_by_script = true } in
    let w1 : Objects = record w { at = update w.at o (some y) } in
    let w1' : Objects = record w1 { destructed = w.destructed ++ o ∷ [] } in
    let (w2, ran, is) = tear_down-Kept o (d o) w1' y keeps (ground arith) refl in
    (
      w1,
      w2,
      set_locked-live o w live true,
      ran,
      record {
        value = is.value;
        live = is.live;
        lock = is.lock;
        others = λ r ne. is.others r ne ∙ ground (arith);
        fresh = is.fresh;
        invoked = is.invoked ∙ append-nil (w.destructed ++ o ∷ []);
      },
    )
