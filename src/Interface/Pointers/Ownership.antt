-- ===== src/Interface/Pointers/Ownership.antt =====
-- An owner releases each object that it is given, once.
use multi_script.Prelude.{
  ◌≡◌, Bool, true, false, Option, none, some, List, [], ◌∷◌, ◌==◌, if◌then◌else◌, arith,
}
use multi_script.Outcome.{Outcome, ok, stop, undefined, ◌>>=◌}
use multi_script.Interface.Program.{Pointer}
use multi_script.Interface.Objects.{ScriptObject, Objects, update, release}
use multi_script.Interface.Pointers.{ScriptObjectPtr, destroy_ptr, assign_ptr}

-- A live object that no script callback is busy with.
pub record IsFree (w : Objects) (o : Pointer) : Type 0 where
  pub value : ScriptObject
  pub live : w.at o ≡ some value
  pub unlocked : value.locked_by_script ≡ false

abbrev pub has : Pointer → List Pointer → Bool
has o [] = false
has o (p ∷ ps) = if p == o then true else has o ps

-- Distinct free objects.
abbrev pub AllFree : Objects → List Pointer → Type 0
AllFree w [] = Unit
AllFree w (o ∷ os) = IsFree w o × (has o os ≡ false) × AllFree w os

-- The assignments of these objects to the owner, one after another, and its end.
unfoldable pub own_all : ScriptObjectPtr → List Pointer → Objects → Outcome Objects
unfolding destroy_ptr assign_ptr
own_all p [] w = destroy_ptr p w
own_all p (o ∷ os) w = do (p', w') ← assign_ptr p (some o) w; own_all p' os w'

-- What a list of deletions leaves.
abbrev pub without : List Pointer → (Pointer → Option ScriptObject) → Pointer → Option ScriptObject
without [] f q = f q
without (o ∷ os) f q = without os (update f o none) q

release-IsFree :
    (w : Objects) (o : Pointer)
    → IsFree w o
    → release o w ≡ ok (record w { at = update w.at o none })
unfolding release
release-IsFree w o is = ground (arith, is.live, is.unlocked)

AllFree-delete :
    (w : Objects) (o : Pointer) (os : List Pointer)
    → has o os ≡ false
    → AllFree w os
    → AllFree (record w { at = update w.at o none }) os
AllFree-delete w o [] apart h = tt
AllFree-delete w o (q ∷ os) apart (is, fresh, rest) = (
  record { value = is.value; live = ground (arith, is.live); unlocked = is.unlocked },
  fresh,
  AllFree-delete w o os (ground arith) rest,
)

own_all-held :
    (o : Pointer) (os : List Pointer) (w : Objects)
    → AllFree w (o ∷ os)
    → own_all (some o) os w ≡ ok (record w { at = without (o ∷ os) w.at })
unfolding own_all
own_all-held o [] w (is, fresh, rest) = release-IsFree w o is
own_all-held o (q ∷ os) w (is, fresh, rest) = rw (release-IsFree w o is) (
    own_all-held q os (record w { at = update w.at o none })
      (AllFree-delete w o (q ∷ os) fresh rest))

-- An owner that is assigned distinct free objects, one after another, and then ends, deletes each
-- of them, touches no other, and frees nothing twice.
pub own_all-releases :
    (o : Pointer) (os : List Pointer) (w : Objects)
    → AllFree w (o ∷ os)
    → own_all none (o ∷ os) w ≡ ok (record w { at = without (o ∷ os) w.at })
unfolding own_all
own_all-releases o os w free = own_all-held o os w free

-- Assigning an owner the object that it holds already deletes the object and keeps the pointer:
-- the owner's end is then undefined.
pub assign_ptr_self :
    (o : Pointer) (w : Objects)
    → IsFree w o
    → (assign_ptr (some o) (some o) w >>= λ r. destroy_ptr r.0 r.1) ≡ stop undefined
unfolding assign_ptr destroy_ptr
assign_ptr_self o w is = ground (arith, is.live, is.unlocked)
