-- ===== src/GameMonkey/Stack/Calls.antt =====
-- A call of a Game Monkey function from C++, from `BeginCall` to `ReleaseAfterCall`.
use multi_script.Prelude.{
  ◌≡◌, refl, sym, ap, ◌∙◌, true, none, some, List, [], ◌∷◌, ◌++◌, append_assoc, append-nil, map,
  arith,
}
use multi_script.Outcome.{ok}
use multi_script.Interface.Program.{CInt, run, push_ints}
use multi_script.Interface.Shared.{Classes}
use multi_script.GameMonkey.Api.{GmApi, Value, integer, int_value}
use multi_script.GameMonkey.Context.{GmScriptContext}
use multi_script.GameMonkey.Stack.{
  GmScriptStack, new, methods, pop_int, end_call, release_after_call,
}

module _ (api : GmApi) (described : Classes) where
  open api use {
    State, Call, arguments, callee, callee-add_param_int, add_param_int, arguments-add_param_int,
    end_the_call, did_return_variable, returned_variable, returned_int, returned_int-value,
  }

  -- The pushes of a call: the arguments in order, and nothing else.
  record Pushed (vs : List CInt) (c : GmScriptContext api) (k : Call) (t : GmScriptStack api)
      : Type 0 where
    ran :
        run
          (methods api described)
          (push_ints vs)
          (record { context = c; call = some k; num_params = 0; num_popped = 0 })
        ≡ ok (true, t)
    call : Call
    called : t.call ≡ some call
    holds : arguments call ≡ arguments k ++ map integer vs
    same_function : callee call ≡ callee k
    context : t.context ≡ c

  run-push_ints :
      (vs : List CInt) (c : GmScriptContext api) (k : Call)
      → (t : GmScriptStack api) × Pushed vs c k t
  unfolding run push_ints methods
  run-push_ints [] c k = (
    _,
    record {
      ran = refl;
      call = k;
      called = refl;
      holds = sym (append-nil (arguments k));
      same_function = refl;
      context = refl;
    },
  )
  run-push_ints (v ∷ vs) c k =
      let (t, is) = run-push_ints vs c (add_param_int v k) in
      (
        t,
        record {
          ran = is.ran;
          call = is.call;
          called = is.called;
          holds =
              is.holds
              ∙ ap (λ (r : List Value). r ++ map integer vs) (arguments-add_param_int v k)
              ∙ append_assoc (arguments k) (integer v ∷ []) (map integer vs);
          same_function = is.same_function ∙ callee-add_param_int v k;
          context = is.context;
        },
      )

  end_call-made :
      (t : GmScriptStack api) (k : Call)
      → t.call ≡ some k
      → did_return_variable (end_the_call k t.context.machine).0 ≡ true
      → end_call api t
        ≡ ok (
          true,
          record t {
            context = record t.context { machine = (end_the_call k t.context.machine).1 };
            call = some (end_the_call k t.context.machine).0;
            num_params = 1;
            num_popped = 0;
          },
        )
  unfolding end_call
  end_call-made t k called returned = ground (arith, called, returned)

  -- The states of a call that returns the number `v`.
  pub record Returned (c : GmScriptContext api) (k : Call) (vs : List CInt) (v : CInt)
      : Type 0 where
    pub called : GmScriptStack api
    pub ended : GmScriptStack api
    pub popped : GmScriptStack api
    pub released : GmScriptContext api
    pub pushes : run (methods api described) (push_ints vs) (new api c (some k)) ≡ ok (true, called)
    pub ends : end_call api called ≡ ok (true, ended)
    pub counts : ended.num_params ≡ 1
    pub pops_result : pop_int api ended ≡ ok (some v, popped)
    pub pops_none : pop_int api popped ≡ ok (none, popped)
    pub releases : release_after_call api popped ≡ ok released
    pub unchanged : released ≡ record c { machine = released.machine }

  -- After a `BeginCall` that found a function, if this function returns the number `v` on these
  -- arguments, in their order, every push and `EndCall` succeed, `GetNumParams` says that there is one result,
  -- `PopInt` gives `v` once and then nothing, and `ReleaseAfterCall` gives the context back.
  pub call_script_gm :
      (c : GmScriptContext api) (k : Call) (vs : List CInt) (v : CInt)
      → arguments k ≡ []
      → ((k' : Call)
          → callee k' ≡ callee k
          → arguments k' ≡ map integer vs
          → (did_return_variable (end_the_call k' c.machine).0 ≡ true)
            × (returned_variable (end_the_call k' c.machine).0 ≡ integer v))
      → Returned c k vs v
  unfolding new pop_int release_after_call
  call_script_gm c k vs v fresh returns =
      let (t, is) = run-push_ints vs c k in
      let k' = is.call in
      let m = t.context.machine in
      let same : m ≡ c.machine = ap (λ (d : GmScriptContext api). d.machine) is.context in
      let (returned, value) =
        returns k' is.same_function
          (is.holds ∙ ap (λ (r : List Value). r ++ map integer vs) fresh) in
      let (k'', m') = end_the_call k' m in
      let returned' : did_return_variable k'' ≡ true = rw same returned in
      let integer_there : returned_variable k'' ≡ integer v = rw same value in
      let value' : returned_int k'' ≡ some v =
        returned_int-value k'' returned' ∙ ap int_value integer_there in
      let ended : GmScriptStack api = record t {
        context = record t.context { machine = m' };
        call = some k'';
        num_params = 1;
        num_popped = 0;
      } in
      record {
        called = t;
        ended = ended;
        popped = record ended { num_popped = 1 };
        released = record t.context { machine = m' };
        pushes = is.ran;
        ends = end_call-made t k' is.called returned';
        counts = refl;
        pops_result = rw value';
        pops_none = refl;
        releases = refl;
        unchanged = ap (λ (d : GmScriptContext api). record d { machine = m' }) is.context;
      }
