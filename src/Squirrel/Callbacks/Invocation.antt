-- ===== src/Squirrel/Callbacks/Invocation.antt =====
-- The frame in which Squirrel runs a callback of a class: the class info on the top, and the instance
-- below everything.
use multi_script.Prelude.{
  ltb, true, true, ◌-◌, ℕ, suc, ◌≡◌, sym, ap, ◌∙◌, none, some, List, [], ◌∷◌, ◌++◌, arith, length,
  length-append, get_elem?,
}
use multi_script.Outcome.{ok, stop, assertion}
use multi_script.Interface.Program.{Pointer}
use multi_script.Interface.Objects.{ScriptObject}
use multi_script.Interface.Lifecycle.Locked.{load-live}
use multi_script.Interface.Shared.{get_elem?-last}
use multi_script.Squirrel.Api.{SquirrelApi, Value, user_pointer, instance_value, absolute, value_at}
use multi_script.Squirrel.Context.{SquirrelScriptContext, SquirrelClassInfo, with_vm}
use multi_script.Squirrel.Stack.Frames.{pop_user_pointer-top}
use multi_script.Squirrel.Callbacks.{pop_class_info, this_object}

pub value_at-bottom :
    (vs : List Value) (this : Value) → value_at (absolute 1) (vs ++ this ∷ []) ≡ some this
value_at-bottom vs this =
    let count : length (vs ++ this ∷ []) ≡ suc (length vs) =
      omega (arith, length-append {0} vs (this ∷ [])) in
    let some_there : ltb 0 (suc (length vs)) ≡ true = ground arith in
    let last : suc (length vs) - 1 ≡ length vs = omega arith in
    rw (count, some_there, last) (get_elem?-last vs this)

module _ (api : SquirrelApi) where
  open api use {State, stack, instance_up, gettype-value, getinstanceup-value, sq_pop, up-pop}

  pub record Invocation (c : SquirrelScriptContext api) (info : Pointer) (i : SquirrelClassInfo)
      (o : Pointer) (x : ScriptObject) (vs : List Value) : Type 0 where
    pub handle : ℕ
    pub frame : stack c.vm ≡ user_pointer info ∷ vs ++ instance_value handle ∷ []
    pub known : get_elem? c.classes info ≡ some i
    pub up : instance_up c.vm handle ≡ some o
    pub live : c.objects.at o ≡ some x

  pub pop_class_info-top :
      (c : SquirrelScriptContext api) {info : Pointer} {i : SquirrelClassInfo} {vs : List Value}
      → stack c.vm ≡ user_pointer info ∷ vs
      → get_elem? c.classes info ≡ some i
      → (pop_class_info api c ≡ ok ((info, i), with_vm api c (sq_pop 1 c.vm)))
        × (stack (sq_pop 1 c.vm) ≡ vs)
  unfolding pop_class_info
  pop_class_info-top c {info} holds known =
      let (c', popped, same, left) = pop_user_pointer-top api c holds in
      (
        rw (popped, same, known),
        ap (λ (d : SquirrelScriptContext api). stack d.vm) (sym same) ∙ left,
      )

  module _ (c : SquirrelScriptContext api) (vs : List Value) {n : ℕ} {o : Pointer}
      {x : ScriptObject} (frame : stack c.vm ≡ vs ++ instance_value n ∷ [])
      (up : instance_up c.vm n ≡ some o) (live : c.objects.at o ≡ some x) where
    pub this_object-live : {p : Pointer} → x.object_ptr ≡ some p → this_object api c ≡ ok o
    unfolding this_object
    this_object-live set =
        let there : value_at (absolute 1) (stack c.vm) ≡ some (instance_value n) =
          ap (value_at (absolute 1)) frame ∙ value_at-bottom vs (instance_value n) in
        rw (
          gettype-value (absolute 1) c.vm there,
          getinstanceup-value (absolute 1) c.vm there,
          up,
          load-live o c.objects live,
          set,
        )

    pub this_object-destroyed : x.object_ptr ≡ none → this_object api c ≡ stop assertion
    unfolding this_object
    this_object-destroyed null =
        let there : value_at (absolute 1) (stack c.vm) ≡ some (instance_value n) =
          ap (value_at (absolute 1)) frame ∙ value_at-bottom vs (instance_value n) in
        rw (
          gettype-value (absolute 1) c.vm there,
          getinstanceup-value (absolute 1) c.vm there,
          up,
          load-live o c.objects live,
          null,
        )
