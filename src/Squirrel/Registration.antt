-- ===== src/Squirrel/Registration.antt =====
-- What `RegisterFunction` and `RegisterUserClass` of multiscript/SquirrelScriptContext.cpp leave in the
-- root table and in a new class.
pub mod Members
use multi_script.Prelude.{
  ℕ, ◌+◌, ◌≡◌, refl, sym, ap, ◌∙◌, Bool, true, false, Option, none, some, List, [], ◌∷◌, ◌++◌,
  Bytes, codes, bytes_eq, ◌==◌, if◌then◌else◌, length, get_elem?, arith, Bool-cases, inl, inr,
}
use multi_script.Outcome.{ok}
use multi_script.Interface.Program.{Pointer}
use multi_script.Interface.Desc.{FunctionDesc, ClassDesc, ClassMethodDesc}
use multi_script.Interface.Shared.{is_some, get_elem?-last}
use multi_script.Squirrel.Api.{
  SquirrelApi, Handler, function_callback, constructor_callback, destructor_callback,
  to_string_callback, method_callback, Value, root_table, class_value, native_closure, text,
  user_pointer, integer, container, same_container, from_top,
}
use multi_script.Squirrel.Context.{SquirrelScriptContext, SquirrelClassInfo, register_function}
use multi_script.Squirrel.Context.Classes.{
  create_handler, add_methods, add_members, register_user_class,
}
use multi_script.Squirrel.Stack.Calls.{pops}

module _ (api : SquirrelApi) where
  open api use {
    State, stack, slot, stack-pushroottable, stack-pushinteger, stack-pushstring,
    stack-pushuserpointer, stack-newclosure, stack-newclosure_index, stack-createslot,
    slot-createslot, slot-pop, slot-pushroottable, slot-pushinteger, slot-pushstring,
    slot-pushuserpointer, slot-newclosure, newclass, sq_pop, sq_pushroottable, sq_pushinteger,
    sq_pushstring, sq_pushuserpointer, sq_newclosure, sq_newclass, sq_createslot,
  }

  slot_at : {s t : State} → slot s ≡ slot t → (d : Option ℕ) (n : Bytes) → slot s d n ≡ slot t d n
  slot_at e d n = ap (λ (f : Option ℕ → Bytes → Option Value). f d n) e

  -- A slot is created in the table or class on the top.
  pub record Created (s s' : State) (c : Option ℕ) (key : Bytes) (v : Value) : Type 0 where
    pub same : stack s' ≡ stack s
    pub slots :
        (d : Option ℕ) (n : Bytes)
        → slot s' d n ≡ (
            if same_container c d
            then (if bytes_eq n key then some v else slot s d n)
            else slot s d n)

  pub create_handler-Created :
      (key : Bytes) (h : Handler) (info : Pointer) (s : State) {self : Value} {c : Option ℕ}
      {vs : List Value}
      → stack s ≡ self ∷ vs
      → container self ≡ some c
      → Created s (create_handler api key h info s) c key (native_closure h info none)
  unfolding create_handler
  create_handler-Created key h info s {self} {c} {vs} holds kind =
      let s1 = sq_pushstring key s in
      let s2 = sq_pushuserpointer info s1 in
      let s3 = sq_newclosure h 1 s2 in
      let ready : stack s3 ≡ native_closure h info none ∷ text key ∷ self ∷ vs =
        stack-newclosure h info s2 (
          stack-pushuserpointer info s1
          ∙ ap (λ (ws : List Value). user_pointer info ∷ ws)
              (stack-pushstring key s ∙ ap (λ (ws : List Value). text key ∷ ws) holds)) in
      let before : slot s3 ≡ slot s =
        slot-newclosure h 1 s2 ∙ slot-pushuserpointer info s1 ∙ slot-pushstring key s in
      record {
        same = stack-createslot s3 ready kind ∙ sym holds;
        slots = λ d n. slot-createslot s3 ready kind d n ∙ rw (slot_at before d n) refl;
      }

  pub create_method-Created :
      (key : Bytes) (i : ℕ) (info : Pointer) (s : State) {self : Value} {c : Option ℕ}
      {vs : List Value}
      → stack s ≡ self ∷ vs
      → container self ≡ some c
      → Created s
          (sq_createslot (from_top 3) (
            sq_newclosure method_callback 2
              (sq_pushinteger i (sq_pushuserpointer info (sq_pushstring key s)))))
          c
          key
          (native_closure method_callback info (some i))
  create_method-Created key i info s {self} {c} {vs} holds kind =
      let s1 = sq_pushstring key s in
      let s2 = sq_pushuserpointer info s1 in
      let s3 = sq_pushinteger i s2 in
      let s4 = sq_newclosure method_callback 2 s3 in
      let pointed : stack s2 ≡ user_pointer info ∷ text key ∷ self ∷ vs =
        stack-pushuserpointer info s1
        ∙ ap (λ (ws : List Value). user_pointer info ∷ ws)
            (stack-pushstring key s ∙ ap (λ (ws : List Value). text key ∷ ws) holds) in
      let ready =
        stack-newclosure_index method_callback i info s3
          (stack-pushinteger i s2 ∙ ap (λ (ws : List Value). integer i ∷ ws) pointed) in
      let before : slot s4 ≡ slot s =
        slot-newclosure method_callback 2 s3
        ∙ slot-pushinteger i s2
        ∙ slot-pushuserpointer info s1
        ∙ slot-pushstring key s in
      record {
        same = stack-createslot s4 ready kind ∙ sym holds;
        slots = λ d n. slot-createslot s4 ready kind d n ∙ rw (slot_at before d n) refl;
      }

  -- Registering a function binds its name in the root table to a closure that leads back to its
  -- description, and leaves the stack and the other names alone.
  pub register_function-slot :
      (c : SquirrelScriptContext api) (desc : FunctionDesc)
      → (c' : SquirrelScriptContext api) × (register_function api desc c ≡ (true, c'))
        × (stack c'.vm ≡ stack c.vm)
        × ((n : Bytes)
            → slot c'.vm none n ≡ (
                if bytes_eq n desc.name
                then some (native_closure function_callback (length c.functions) none)
                else slot c.vm none n))
        × (get_elem? c'.functions (length c.functions) ≡ some desc)
  unfolding register_function create_handler
  register_function-slot c desc =
      let info = length c.functions in
      let s1 = sq_pushroottable c.vm in
      let s2 = create_handler api desc.name function_callback info s1 in
      let made =
        create_handler-Created desc.name function_callback info s1 (stack-pushroottable c.vm)
          refl in
      (
        record c { vm = sq_pop 1 s2; functions = c.functions ++ desc ∷ [] },
        refl,
        pops api 1 s2 (root_table ∷ []) (stack c.vm) (made.same ∙ stack-pushroottable c.vm) refl,
        λ n.
            slot_at (slot-pop 1 s2) none n
            ∙ made.slots none n
            ∙ rw (slot_at (slot-pushroottable c.vm) none n) refl,
        get_elem?-last c.functions desc,
      )
