-- ===== src/Squirrel/Stack/Protocol.antt =====
-- Both ends of a call from C++ into Squirrel: one that returns a number, and one that fails.
use multi_script.Prelude.{
  ◌+◌, ◌≡◌, refl, sym, ap, ◌∙◌, true, false, some, List, [], ◌∷◌, ◌++◌, map, reverse, arith, length,
  length-append,
}
use multi_script.Outcome.{ok}
use multi_script.Interface.Program.{CInt, run, push_ints}
use multi_script.Interface.Shared.{Classes, decrement}
use multi_script.Squirrel.Api.{SquirrelApi, Value, root_table, integer, from_top, value_at}
use multi_script.Squirrel.Context.{SquirrelScriptContext}
use multi_script.Squirrel.Stack.{
  SquirrelScriptStack, new, methods, pop_int, end_call, release_after_call, results_between,
}
use multi_script.Squirrel.Stack.Calls.{run-push_ints, call_frame-shown, length-args, pops}

module _ (api : SquirrelApi) (described : Classes) where
  open api use {
    State, stack, gettop-length, getinteger-value, call-ok, call-error, sq_pop, sq_getinteger,
    sq_call, sq_gettop,
  }

  -- The values on the stack when `EndCall` runs.
  abbrev pub call_frame : List CInt → Value → List Value → List Value
  call_frame vs f base = (map integer (reverse vs) ++ root_table ∷ []) ++ f ∷ root_table ∷ base

  length-call_frame :
      (vs : List CInt) (f : Value) (base : List Value) {ws : List Value}
      → ws ≡ call_frame vs f base
      → length ws ≡ length vs + 3 + length base
  length-call_frame vs f base same =
      ap (length {0} {A = Value}) same
      ∙ omega (
        arith,
        length-args api described vs,
        length-append {0} (map integer (reverse vs) ++ root_table ∷ []) (f ∷ root_table ∷ base),
      )

  -- The states of a call that returns the number `v`: after the pushes, after `EndCall`, and after
  -- the result is popped.
  pub record Returned (c : SquirrelScriptContext api) (vs : List CInt) (v : CInt)
      (base : List Value) : Type 0 where
    pub called : SquirrelScriptStack api
    pub ended : SquirrelScriptStack api
    pub popped : SquirrelScriptStack api
    pub released : SquirrelScriptContext api
    pub pushes : run (methods api described) (push_ints vs) (new api c true) ≡ ok (true, called)
    pub ends : end_call api called ≡ ok (true, ended)
    pub counts : ended.num_params ≡ 1
    pub pops_result : pop_int api ended ≡ ok (some v, popped)
    pub counts_none : popped.num_params ≡ 0
    pub releases : release_after_call api popped ≡ ok released
    pub balanced : stack released.vm ≡ base

  -- After a `BeginCall` that found `f`, if `f` returns the number `v` on these arguments, every
  -- push and `EndCall` succeed, `GetNumParams` says that there is one result, `PopInt` gives `v`,
  -- and `ReleaseAfterCall` then leaves the stack as it was before `BeginCall`.
  pub call_script_squirrel :
      (c : SquirrelScriptContext api) (f : Value) (vs : List CInt) (v : CInt) (base : List Value)
      → stack c.vm ≡ root_table ∷ f ∷ root_table ∷ base
      → ((l : State)
          → stack l ≡ call_frame vs f base
          → ((sq_call (length vs + 1) true l).0 ≡ true)
            × (value_at (from_top 1) (stack (sq_call (length vs + 1) true l).1) ≡ some (integer v)))
      → Returned c vs v base
  unfolding end_call new release_after_call pop_int
  call_script_squirrel c f vs v base begun returns =
      let (s, is) = run-push_ints api described (new api c true) vs in
      let ready = call_frame-shown api described vs (new api c true) s f base begun is in
      let n = s.num_pushed + 1 in
      let count : n ≡ length vs + 1 = omega (arith, is.pushed) in
      let l = (sq_call n true s.context.vm).1 in
      let fine : (sq_call n true s.context.vm).0 ≡ true = rw count (returns s.context.vm ready).0 in
      let top : value_at (from_top 1) (stack l) ≡ some (integer v) =
        rw count (returns s.context.vm ready).1 in
      let (r, left) =
        call-ok n s.context.vm f (map integer (reverse vs) ++ root_table ∷ []) (root_table ∷ base)
          ready (length-args api described vs ∙ sym count) fine in
      let value : sq_getinteger (from_top 1) l ≡ some v =
        getinteger-value (from_top 1) l {v = integer v} top in
      let there : s.is_call ≡ true = is.call in
      let one : results_between (sq_gettop s.context.vm) (sq_gettop l) n ≡ 1 = omega (
        arith,
        gettop-length s.context.vm,
        length-call_frame vs f base ready,
        gettop-length l,
        ap (length {0} {A = Value}) left,
        count,
      ) in
      let ended = record s {
        context = record s.context { vm = l };
        num_params = results_between (sq_gettop s.context.vm) (sq_gettop l) n;
      } in
      record {
        called = s;
        ended = ended;
        popped = record ended {
          context = record ended.context { vm = sq_pop 1 l };
          num_params = decrement ended.num_params;
        };
        released = record s.context { vm = sq_pop 2 (sq_pop 1 l) };
        pushes = is.ran;
        ends = rw (there, fine);
        counts = one;
        pops_result = ground (arith, value);
        counts_none = ap decrement one;
        releases = rw there;
        balanced =
            pops api 2 (sq_pop 1 l) (f ∷ root_table ∷ []) base
              (pops api 1 l (r ∷ []) (f ∷ root_table ∷ base) left refl) refl;
      }

  -- After a `BeginCall` that found `f`, if `f` fails on these arguments, `EndCall` says so and has
  -- already left the stack as it was before `BeginCall`; `ReleaseAfterCall` then takes two more
  -- values, which are the caller's.
  pub call_script_fails :
      (c : SquirrelScriptContext api) (f : Value) (vs : List CInt) (x y : Value) (base : List Value)
      → stack c.vm ≡ root_table ∷ f ∷ root_table ∷ x ∷ y ∷ base
      → ((l : State)
          → stack l ≡ call_frame vs f (x ∷ y ∷ base)
          → (sq_call (length vs + 1) true l).0 ≡ false)
      → (s t : SquirrelScriptStack api) × (c' : SquirrelScriptContext api) × (run
            (methods api described)
            (push_ints vs)
            (new api c true)
          ≡ ok (true, s))
        × (end_call api s ≡ ok (false, t))
        × (stack t.context.vm ≡ x ∷ y ∷ base)
        × (release_after_call api t ≡ ok c')
        × (stack c'.vm ≡ base)
  unfolding end_call new release_after_call
  call_script_fails c f vs x y base begun fails =
      let (s, is) = run-push_ints api described (new api c true) vs in
      let ready = call_frame-shown api described vs (new api c true) s f (x ∷ y ∷ base) begun is in
      let n = s.num_pushed + 1 in
      let count : n ≡ length vs + 1 = omega (arith, is.pushed) in
      let l = (sq_call n true s.context.vm).1 in
      let failed : (sq_call n true s.context.vm).0 ≡ false = rw count (fails s.context.vm ready) in
      let left =
        call-error n s.context.vm f (map integer (reverse vs) ++ root_table ∷ [])
          (root_table ∷ x ∷ y ∷ base) ready (length-args api described vs ∙ sym count) failed in
      let there : s.is_call ≡ true = is.call in
      let back = pops api 2 l (f ∷ root_table ∷ []) (x ∷ y ∷ base) left refl in
      (
        s,
        record s { context = record s.context { vm = sq_pop 2 l } },
        record s.context { vm = sq_pop 2 (sq_pop 2 l) },
        is.ran,
        rw (there, failed),
        back,
        rw there,
        pops api 2 (sq_pop 2 l) (x ∷ y ∷ []) base back refl,
      )
