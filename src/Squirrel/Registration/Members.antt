-- ===== src/Squirrel/Registration/Members.antt =====
-- The members of the class that `RegisterUserClass` of multiscript/SquirrelScriptContext.cpp makes.
use multi_script.Prelude.{
  ℕ, ◌+◌, ◌≡◌, refl, sym, ap, ◌∙◌, true, Option, none, some, List, [], ◌∷◌, ◌++◌, Bytes, codes,
  bytes_eq, if◌then◌else◌, length, get_elem?, arith, Bool-cases, inl, inr,
}
use multi_script.Outcome.{ok}
use multi_script.Interface.Program.{Pointer}
use multi_script.Interface.Desc.{ClassDesc, ClassMethodDesc}
use multi_script.Interface.Shared.{is_some, get_elem?-last, find_last, find_last-append}
use multi_script.Squirrel.Api.{
  SquirrelApi, Handler, constructor_callback, destructor_callback, to_string_callback,
  method_callback, Value, root_table, class_value, native_closure, text, same_container, from_top,
}
use multi_script.Squirrel.Context.{SquirrelScriptContext}
use multi_script.Squirrel.Context.Classes.{
  create_handler, add_methods, add_members, register_user_class,
}
use multi_script.Squirrel.Registration.{Created, create_handler-Created, create_method-Created}

abbrev pub method_slots : List ClassMethodDesc → ℕ → Pointer → List (Bytes × Value)
method_slots [] i info = []
method_slots (m ∷ ms) i info =
    (m.name, native_closure method_callback info (some i)) ∷ method_slots ms (i + 1) info

-- The slots of the class of a description, in order.
abbrev pub class_slots : ClassDesc → Pointer → List (Bytes × Value)
class_slots desc info =
    method_slots desc.methods 0 info
    ++ (codes "constructor", native_closure constructor_callback info none)
      ∷ (codes "AsString", native_closure to_string_callback info none)
      ∷ (if desc.garbage_collect
          then []
          else (codes "Destroy", native_closure destructor_callback info none) ∷ [])

same_container_refl : (c : Option ℕ) → same_container c c ≡ true
same_container_refl none = refl
same_container_refl (some k) = ground arith

module _ (api : SquirrelApi) where
  open api use {
    State, stack, slot, stack-pushstring, slot-pushstring, newclass, stack-createslot,
    slot-createslot, sq_newclass, sq_pushstring, sq_createslot,
  }

  -- These slots are created in the class on the top.
  record Filled (s s' : State) (k : ℕ) (es : List (Bytes × Value)) : Type 0 where
    same : stack s' ≡ stack s
    root : (n : Bytes) → slot s' none n ≡ slot s none n
    members : (n : Bytes) → slot s' (some k) n ≡ find_last n es (slot s (some k) n)

  Filled-refl : (s : State) (k : ℕ) → Filled s s k []
  Filled-refl s k = record { same = refl; root = λ n. refl; members = λ n. refl }

  Filled-one :
      {s s' : State} {k : ℕ} {key : Bytes} {v : Value}
      → Created api s s' (some k) key v
      → Filled s s' k ((key, v) ∷ [])
  Filled-one {s} {s'} {k} {key} {v} made = record {
    same = made.same;
    root = λ n. made.slots none n;
    members = λ n. made.slots (some k) n ∙ rw (same_container_refl (some k)) refl;
  }

  Filled-trans :
      {s s' s'' : State} {k : ℕ} {es fs : List (Bytes × Value)}
      → Filled s s' k es
      → Filled s' s'' k fs
      → Filled s s'' k (es ++ fs)
  Filled-trans {s} {s'} {s''} {k} {es} {fs} is then_is = record {
    same = then_is.same ∙ is.same;
    root = λ n. then_is.root n ∙ is.root n;
    members = λ n.
        then_is.members n
        ∙ ap (find_last n fs) (is.members n)
        ∙ sym (find_last-append n es fs (slot s (some k) n));
  }

  handler-Filled :
      (key : Bytes) (h : Handler) (info : Pointer) (s : State) {k : ℕ} {vs : List Value}
      → stack s ≡ class_value k ∷ vs
      → Filled s (create_handler api key h info s) k ((key, native_closure h info none) ∷ [])
  handler-Filled key h info s holds =
      Filled-one (create_handler-Created api key h info s holds refl)

  add_methods-Filled :
      (ms : List ClassMethodDesc) (i : ℕ) (info : Pointer) (s : State) {k : ℕ} {vs : List Value}
      → stack s ≡ class_value k ∷ vs
      → Filled s (add_methods api ms i info s) k (method_slots ms i info)
  unfolding add_methods
  add_methods-Filled [] i info s {k} holds = Filled-refl s k
  add_methods-Filled (m ∷ ms) i info s {k} holds =
      let made = create_method-Created api m.name i info s holds refl in
      Filled-trans (Filled-one made) (add_methods-Filled ms (i + 1) info _ (made.same ∙ holds))

  add_members-Filled :
      (desc : ClassDesc) (info : Pointer) (s : State) {k : ℕ} {vs : List Value}
      → stack s ≡ class_value k ∷ vs
      → Filled s (add_members api desc info s) k (class_slots desc info)
  unfolding add_members
  add_members-Filled desc info s {k} holds =
      let methods = add_methods-Filled desc.methods 0 info s holds in
      let constructor =
        handler-Filled (codes "constructor") constructor_callback info _ (methods.same ∙ holds) in
      let as_string =
        handler-Filled (codes "AsString") to_string_callback info _
          (constructor.same ∙ methods.same ∙ holds) in
      let always = Filled-trans methods (Filled-trans constructor as_string) in
      elim (Bool-cases desc.garbage_collect) [
        | inl collected ↦ rw collected always
        | inr destroyed ↦ rw destroyed (
            Filled-trans methods (
              Filled-trans constructor (
                Filled-trans as_string (
                  handler-Filled (codes "Destroy") destructor_callback info _
                    (always.same ∙ holds)))))
      ]

  -- Registering a class, with the root table on the top of the stack, binds its name in the root
  -- table to a new class whose members are the handlers of its description, a later one in place
  -- of an earlier one of the same name; it leaves the stack and the other names alone, and records
  -- the description.
  pub register_user_class-members :
      (address : Pointer) (desc : ClassDesc) (c : SquirrelScriptContext api) (base : List Value)
      → is_some desc.constructor ≡ true
      → is_some desc.destructor ≡ true
      → stack c.vm ≡ root_table ∷ base
      → (c' : SquirrelScriptContext api) × (k : ℕ) × (register_user_class api address desc c
          ≡ ok (true, c'))
        × (stack c'.vm ≡ root_table ∷ base)
        × ((n : Bytes)
            → slot c'.vm none n
              ≡ (if bytes_eq n desc.name then some (class_value k) else slot c.vm none n))
        × ((n : Bytes)
            → slot c'.vm (some k) n ≡ find_last n (class_slots desc (length c.classes)) none)
        × (get_elem? c'.classes (length c.classes) ≡ some (record { desc = address; class = desc }))
  unfolding register_user_class
  register_user_class-members address desc c base made destroyed holds =
      let info = length c.classes in
      let s1 = sq_pushstring desc.name c.vm in
      let (k, on_top, no_members, kept) = newclass s1 in
      let s2 = sq_newclass s1 in
      let filled = add_members-Filled desc info s2 on_top in
      let s3 = add_members api desc info s2 in
      let ready : stack s3 ≡ class_value k ∷ text desc.name ∷ root_table ∷ base =
        filled.same
        ∙ on_top
        ∙ ap (λ (ws : List Value). class_value k ∷ ws)
            (stack-pushstring desc.name c.vm
              ∙ ap (λ (ws : List Value). text desc.name ∷ ws) holds) in
      let root : (n : Bytes) → slot s3 none n ≡ slot c.vm none n = λ n.
        filled.root n
        ∙ kept n
        ∙ ap (λ (f : Option ℕ → Bytes → Option Value). f none n) (slot-pushstring desc.name c.vm) in
      (
        record c {
          vm = sq_createslot (from_top 3) s3;
          classes = c.classes ++ (record { desc = address; class = desc }) ∷ [];
        },
        k,
        rw (made, destroyed),
        stack-createslot s3 ready refl,
        λ n. slot-createslot s3 ready refl none n ∙ rw (root n) refl,
        λ n.
            slot-createslot s3 ready refl (some k) n
            ∙ filled.members n
            ∙ ap (find_last n (class_slots desc info)) (no_members n),
        get_elem?-last c.classes (record { desc = address; class = desc }),
      )
