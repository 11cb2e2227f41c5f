-- ===== src/Squirrel/Stack/Frames.antt =====
-- A C++ function that Squirrel calls sees its arguments last to first above `this`, and returns all
-- that it pushed.
use mathlib.Core.List.{reverse-append}
use multi_script.Prelude.{
  ◌+◌, ◌^◌, ◌<◌, ◌≡◌, refl, sym, ap, ◌∙◌, true, false, none, some, List, [], ◌∷◌, ◌++◌, map,
  reverse, arith, length, length-append, length-map, get_elem?, drop,
}
use multi_script.Outcome.{ok}
use multi_script.Interface.Program.{CInt, Pointer, Program, run}
use multi_script.Interface.Frame.{Frame, serve}
use multi_script.Interface.Refinement.{Refines, run-serve}
use multi_script.Interface.Shared.{any_room, decrement, decrement-suc, Classes}
use multi_script.Interface.Desc.{FunctionDesc}
use multi_script.Squirrel.Api.{
  SquirrelApi, Value, integer, user_pointer, from_top, value_at, int_value,
}
use multi_script.Squirrel.Context.{SquirrelScriptContext, with_vm}
use multi_script.Squirrel.Stack.{
  SquirrelScriptStack, new, methods, pop_user_pointer, squirrel_function_callback,
}

-- The values of a frame: the last result on the top, then the parameters left, then `this`.
abbrev pub frame_values : List CInt → List CInt → Value → List Value
frame_values params results this = map integer (reverse results) ++ map integer params ++ this ∷ []

module _ (api : SquirrelApi) where
  open api use {State, stack, gettype-value, getuserpointer-value, stack-pop, sq_pop}

  pub pop_user_pointer-top :
      (c : SquirrelScriptContext api) {p : Pointer} {vs : List Value}
      → stack c.vm ≡ user_pointer p ∷ vs
      → (c' : SquirrelScriptContext api) × (pop_user_pointer api c ≡ ok (p, c'))
        × (c' ≡ with_vm api c (sq_pop 1 c.vm))
        × (stack c'.vm ≡ vs)
  unfolding pop_user_pointer
  pop_user_pointer-top c {p} {vs} holds =
      let there : value_at (from_top 1) (stack c.vm) ≡ some (user_pointer p) =
        ap (value_at (from_top 1)) holds in
      (
        with_vm api c (sq_pop 1 c.vm),
        rw (gettype-value (from_top 1) c.vm there, getuserpointer-value (from_top 1) c.vm there),
        refl,
        stack-pop 1 c.vm (omega (arith, ap (length {0} {A = Value}) holds)) ∙ ap (drop 1) holds,
      )

module _ (api : SquirrelApi) (described : Classes) where
  open api use {
    State, stack, gettop-length, gettype-value, getinteger-value, getuserpointer-value, stack-pop,
    stack-pushinteger, sq_getinteger, sq_pop, sq_pushinteger,
  }

  module _ (this : Value) (c0 : SquirrelScriptContext api) where
    pub record Serving (s : SquirrelScriptStack api) (params results : List CInt) : Type 0 where
      pub holds : stack s.context.vm ≡ frame_values params results this
      pub counted : s.num_params ≡ length params
      pub pushed : s.num_pushed ≡ length results
      pub bounded : length params < 2 ^ 31
      pub no_number : int_value this ≡ none
      pub rest : s.context ≡ with_vm api c0 s.context.vm

    pop_int-empty :
        (s : SquirrelScriptStack api)
        → Serving s [] []
        → (t : SquirrelScriptStack api) × ((methods api described).pop_int s ≡ ok (none, t))
          × Serving t [] []
    unfolding methods
    pop_int-empty s is =
        let none_there : sq_getinteger (from_top 1) s.context.vm ≡ none =
          getinteger-value (from_top 1) s.context.vm (ap (value_at (from_top 1)) is.holds)
          ∙ is.no_number in
        (s, ground (arith, none_there), is)

    pop_int-next :
        (s : SquirrelScriptStack api) (p : CInt) (ps : List CInt)
        → Serving s (p ∷ ps) []
        → (t : SquirrelScriptStack api) × ((methods api described).pop_int s ≡ ok (some p, t))
          × Serving t ps []
    unfolding methods
    pop_int-next s p ps is =
        let l = s.context.vm in
        let there : sq_getinteger (from_top 1) l ≡ some p =
          getinteger-value (from_top 1) l {v = integer p} (ap (value_at (from_top 1)) is.holds) in
        (
          record s {
            context = record s.context { vm = sq_pop 1 l };
            num_params = decrement s.num_params;
          },
          ground (arith, there),
          record {
            holds =
                stack-pop 1 l (omega (arith, ap (length {0} {A = Value}) is.holds))
                ∙ ap (drop 1) is.holds;
            counted =
                ap decrement is.counted ∙ decrement-suc (length ps) (omega (arith, is.bounded));
            pushed = is.pushed;
            bounded = omega (arith, is.bounded);
            no_number = is.no_number;
            rest = ap (λ (d : SquirrelScriptContext api). with_vm api d (sq_pop 1 l)) is.rest;
          },
        )

    push_int-room :
        (s : SquirrelScriptStack api) (v : CInt) (ps rs : List CInt)
        → any_room rs ≡ true
        → Serving s ps rs
        → (t : SquirrelScriptStack api) × ((methods api described).push_int v s ≡ ok (true, t))
          × Serving t ps (rs ++ v ∷ [])
    unfolding methods
    push_int-room s v ps rs room is = (
      record s {
        context = record s.context { vm = sq_pushinteger v s.context.vm };
        num_pushed = s.num_pushed + 1;
      },
      refl,
      record {
        holds =
            stack-pushinteger v s.context.vm
            ∙ ap (λ (vs : List Value). integer v ∷ vs) is.holds
            ∙ ap (λ (xs : List CInt). map integer xs ++ map integer ps ++ this ∷ [])
                (sym (reverse-append rs (v ∷ [])));
        counted = is.counted;
        pushed = omega (arith, is.pushed, length-append {0} rs (v ∷ []));
        bounded = is.bounded;
        no_number = is.no_number;
        rest =
            ap (λ (d : SquirrelScriptContext api). with_vm api d (sq_pushinteger v s.context.vm))
              is.rest;
      },
    )

    methods-Refines : Refines (methods api described) any_room Serving
    unfolding methods
    methods-Refines = record {
      counts = λ s ps rs is. (s, rw is.counted, is);
      pops_none = pop_int-empty;
      pops = pop_int-next;
      pushes = push_int-room;
      refuses = λ s v ps rs room is. absurd (cc);
    }

    new-Serving :
        (args : List CInt)
        → stack c0.vm ≡ frame_values (reverse args) [] this
        → int_value this ≡ none
        → length (reverse args) < 2 ^ 31
        → Serving (new api c0 false) (reverse args) []
    unfolding new
    new-Serving args holds no_number few = record {
      holds = holds;
      counted =
          ap decrement (gettop-length c0.vm ∙ ap (length {0} {A = Value}) holds)
          ∙ omega (
            arith,
            few,
            length-append {0} (map integer (reverse args)) (this ∷ []),
            length-map {0, 0} (reverse args) (λ (v : CInt). integer v),
          );
      pushed = refl;
      bounded = few;
      no_number = no_number;
      rest = refl;
    }

    -- What user code that keeps to the frame does on the machine.
    pub run-frame :
        {R : Type 0} (p : Program R) (args : List CInt) {r : R} {f : Frame}
        → stack c0.vm ≡ frame_values (reverse args) [] this
        → int_value this ≡ none
        → length (reverse args) < 2 ^ 31
        → serve any_room p (reverse args) [] ≡ some (r, f)
        → (t : SquirrelScriptStack api) × (run (methods api described) p (new api c0 false)
            ≡ ok (r, t))
          × Serving t f.params f.results
    run-frame p args holds no_number few e =
        run-serve methods-Refines p (new api c0 false) (reverse args) []
          (new-Serving args holds no_number few) e

  -- A registered function of the protocol that deals in integers, called from Squirrel with `this`
  -- no number, pops its arguments last to first. The callback returns the number of its results,
  -- leaves these on the stack in the order of the pushes, above the arguments left and `this`, and
  -- changes nothing else in the context.
  pub squirrel_function_callback-serve :
      (c : SquirrelScriptContext api) (info : Pointer) (desc : FunctionDesc) (args : List CInt)
      (this : Value) {f : Frame}
      → get_elem? c.functions info ≡ some desc
      → stack c.vm ≡ user_pointer info ∷ frame_values (reverse args) [] this
      → int_value this ≡ none
      → length (reverse args) < 2 ^ 31
      → serve any_room desc.function (reverse args) [] ≡ some (true, f)
      → (c' : SquirrelScriptContext api) × (squirrel_function_callback api described c
          ≡ ok (length f.results, c'))
        × (stack c'.vm ≡ frame_values f.params f.results this)
        × (c' ≡ with_vm api c c'.vm)
  unfolding squirrel_function_callback
  squirrel_function_callback-serve c info desc args this {f} known holds no_number few e =
      let (c1, popped, same, left) = pop_user_pointer-top api c holds in
      let known' : get_elem? c1.functions info ≡ some desc =
        ap (λ (d : SquirrelScriptContext api). get_elem? d.functions info) same ∙ known in
      let (t, ran, ends) = run-frame this c1 desc.function args left no_number few e in
      (
        t.context,
        rw (popped, known', ran, ends.pushed),
        ends.holds,
        ends.rest ∙ ap (λ (d : SquirrelScriptContext api). with_vm api d t.context.vm) same,
      )
