-- ===== src/Squirrel/Stack/Calls.antt =====
-- A call of a Squirrel function from C++, from `BeginCall` to `ReleaseAfterCall`.
use multi_script.Prelude.{
  ℕ, ◌+◌, ◌≡◌, refl, sym, ap, ◌∙◌, true, false, Option, none, some, List, [], ◌∷◌, ◌++◌,
  append_assoc, map, reverse, arith, length, length-append, drop-append, Bytes, if◌then◌else◌,
  Bool-cases, Option-cases, inl, inr,
}
use multi_script.Outcome.{ok}
use multi_script.Interface.Program.{CInt, run, push_ints}
use multi_script.Interface.Shared.{Classes, map-reverse-snoc, length-map-reverse}
use multi_script.Squirrel.Api.{
  SquirrelApi, Value, root_table, integer, text, from_top, value_at, is_callable, type_of,
  script_closure, native_closure, null_value, float, user_pointer, class_value, instance_value,
}
use multi_script.Squirrel.Context.{SquirrelScriptContext, is_function, begin_call, execute_string}
use multi_script.Squirrel.Stack.{SquirrelScriptStack, methods}

is_function-type_of : (v : Value) → is_function (type_of v) ≡ is_callable (some v)
is_function-type_of null_value = refl
is_function-type_of root_table = refl
is_function-type_of (integer v) = refl
is_function-type_of (float v) = refl
is_function-type_of (text t) = refl
is_function-type_of (user_pointer p) = refl
is_function-type_of (class_value c) = refl
is_function-type_of (instance_value i) = refl
is_function-type_of (script_closure f) = refl
is_function-type_of (native_closure h p i) = refl

-- What `BeginCall` leaves of what it found under the name, above the values that were there.
abbrev pub begun : Option Value → List Value → List Value
begun none base = base
begun (some v) base =
    if is_callable (some v) then root_table ∷ v ∷ root_table ∷ base else root_table ∷ base

module _ (api : SquirrelApi) where
  open api use {
    State, stack, slot, gettop-length, gettype-value, getinteger-value, stack-pop,
    stack-pushroottable, stack-pushinteger, stack-pushstring, stack-get, slot-pushstring,
    slot-pushroottable, compile-ok, compile-error, call-ok, call-no_result, call-error, sq_pop,
    sq_get, sq_pushstring, sq_pushroottable, sq_pushinteger, sq_gettype, sq_getinteger, sq_compile,
    sq_call,
  }

  -- A pop of values that are known to be there.
  pub pops :
      (n : ℕ) (s : State) (vs below : List Value)
      → stack s ≡ vs ++ below
      → length vs ≡ n
      → stack (sq_pop n s) ≡ below
  pops n s vs below holds count =
      stack-pop n s
        (omega (arith, ap (length {0} {A = Value}) holds, length-append {0} vs below, count))
      ∙ rw (holds, ← count) (drop-append vs below)

  -- Running a text leaves the stack as it was, whether the text compiles and whether it runs.
  pub execute_string-stack :
      (c : SquirrelScriptContext api) (string : Bytes)
      → stack (execute_string api string c).1.vm ≡ stack c.vm
  unfolding execute_string
  execute_string-stack c string = elim (Bool-cases (sq_compile string c.vm).0) [
    | inr failed ↦ rw failed (compile-error string c.vm failed)
    | inl fine ↦
        let (f, compiled) = compile-ok string c.vm fine in
        let s1 = sq_pushroottable (sq_compile string c.vm).1 in
        let ready : stack s1 ≡ (root_table ∷ []) ++ script_closure f ∷ stack c.vm =
          stack-pushroottable (sq_compile string c.vm).1
          ∙ ap (λ (vs : List Value). root_table ∷ vs) compiled in
        let called =
          call-no_result 1 s1 (script_closure f) (root_table ∷ []) (stack c.vm) ready refl in
        rw fine (pops 1 (sq_call 1 false s1).1 (script_closure f ∷ []) (stack c.vm) called refl)
  ]

  -- `BeginCall` finds a function exactly where the root table has one under the name. It leaves a
  -- function between two root tables, and nothing under an unknown name; but for a name that is
  -- bound to something else it leaves the root table behind.
  pub begin_call-begun :
      (c : SquirrelScriptContext api) (name : Bytes)
      → (c' : SquirrelScriptContext api) × (begin_call api name c
          ≡ (is_callable (slot c.vm none name), c'))
        × (stack c'.vm ≡ begun (slot c.vm none name) (stack c.vm))
  unfolding begin_call
  begin_call-begun c name =
      let s1 = sq_pushstring name (sq_pushroottable c.vm) in
      let s2 = sq_get (from_top 2) s1 in
      let ready : stack s1 ≡ text name ∷ root_table ∷ stack c.vm =
        stack-pushstring name (sq_pushroottable c.vm)
        ∙ ap (λ (vs : List Value). text name ∷ vs) (stack-pushroottable c.vm) in
      let same : slot s1 none name ≡ slot c.vm none name =
        ap (λ (f : Option ℕ → Bytes → Option Value). f none name)
          (slot-pushstring name (sq_pushroottable c.vm) ∙ slot-pushroottable c.vm) in
      elim (Option-cases (slot c.vm none name)) [
        | inl missing ↦
            let left : stack s2 ≡ root_table ∷ stack c.vm =
              stack-get s1 ready ∙ rw (same, missing) refl in
            let kind : sq_gettype (from_top 1) s2 ≡ type_of root_table =
              gettype-value (from_top 1) s2 (ap (value_at (from_top 1)) left) in
            (
              record c { vm = sq_pop 1 s2 },
              rw (kind, missing),
              rw missing (pops 1 s2 (root_table ∷ []) (stack c.vm) left refl),
            )
        | inr (v, found) ↦
            let left : stack s2 ≡ v ∷ root_table ∷ stack c.vm =
              stack-get s1 ready ∙ rw (same, found) refl in
            let kind : is_function (sq_gettype (from_top 1) s2) ≡ is_callable (some v) =
              ap is_function (gettype-value (from_top 1) s2 (ap (value_at (from_top 1)) left))
              ∙ is_function-type_of v in
            elim (Bool-cases (is_callable (some v))) [
              | inl callable ↦ (
                record c { vm = sq_pushroottable s2 },
                rw (kind, found, callable),
                stack-pushroottable s2
                    ∙ ap (λ (vs : List Value). root_table ∷ vs) left
                    ∙ sym (rw (found, callable) refl),
              )
              | inr other ↦ (
                record c { vm = sq_pop 1 s2 },
                rw (kind, found, other),
                pops 1 s2 (v ∷ []) (root_table ∷ stack c.vm) left refl
                    ∙ sym (rw (found, other) refl),
              )
            ]
      ]

  module _ (described : Classes) where
    -- What pushing arguments leaves.
    pub record Pushed (vs : List CInt) (s t : SquirrelScriptStack api) : Type 0 where
      pub ran : run (methods api described) (push_ints vs) s ≡ ok (true, t)
      pub holds : stack t.context.vm ≡ map integer (reverse vs) ++ stack s.context.vm
      pub pushed : t.num_pushed ≡ s.num_pushed + length vs
      pub call : t.is_call ≡ s.is_call

    pub run-push_ints :
        (s : SquirrelScriptStack api) (vs : List CInt)
        → (t : SquirrelScriptStack api) × Pushed vs s t
    unfolding run push_ints methods
    run-push_ints s [] = (s, record { ran = refl; holds = refl; pushed = omega arith; call = refl })
    run-push_ints s (v ∷ vs) =
        let s' : SquirrelScriptStack api = record s {
          context = record s.context { vm = sq_pushinteger v s.context.vm };
          num_pushed = s.num_pushed + 1;
        } in
        let (t, is) = run-push_ints s' vs in
        (
          t,
          record {
            ran = is.ran;
            holds =
                is.holds
                ∙ ap (λ (r : List Value). map integer (reverse vs) ++ r)
                    (stack-pushinteger v s.context.vm)
                ∙ sym (map-reverse-snoc integer v vs (stack s.context.vm));
            pushed = omega (arith, is.pushed);
            call = is.call;
          },
        )

    -- The frame of a call: its arguments with the root table below them, then the function.
    pub call_frame-shown :
        (vs : List CInt) (s t : SquirrelScriptStack api) (f : Value) (base : List Value)
        → stack s.context.vm ≡ root_table ∷ f ∷ root_table ∷ base
        → Pushed vs s t
        → stack t.context.vm
          ≡ (map integer (reverse vs) ++ root_table ∷ []) ++ f ∷ root_table ∷ base
    call_frame-shown vs s t f base begun is =
        is.holds
        ∙ ap (λ (r : List Value). map integer (reverse vs) ++ r) begun
        ∙ sym (append_assoc (map integer (reverse vs)) (root_table ∷ []) (f ∷ root_table ∷ base))

    pub length-args :
        (vs : List CInt) → length (map integer (reverse vs) ++ root_table ∷ []) ≡ length vs + 1
    length-args vs = omega (
      arith,
      length-append {0} (map integer (reverse vs)) (root_table ∷ []),
      length-map-reverse integer vs,
    )
