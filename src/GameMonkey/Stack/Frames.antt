-- ===== src/GameMonkey/Stack/Frames.antt =====
-- A C++ function that Game Monkey calls sees its arguments last to first, and leaves on the thread
-- what it pushed.
use mathlib.Core.List.{reverse-append, reverse-reverse}
use multi_script.Prelude.{
  ◌+◌, ◌-◌, ◌≡◌, refl, sym, ap, ◌∙◌, true, false, none, some, List, [], ◌∷◌, ◌++◌, append_assoc,
  append-nil, map, reverse, arith, length, length-map, get_elem?, ◌==◌,
}
use multi_script.Outcome.{Outcome, ok}
use multi_script.Interface.Program.{CInt, Pointer, Program, StackMethods, run}
use multi_script.Interface.Frame.{Frame, serve}
use multi_script.Interface.Refinement.{Refines, run-serve}
use multi_script.Interface.Uncounted.{Uncounted, run-Uncounted}
use multi_script.Interface.Shared.{any_room, Classes, length-reverse, map-reverse-snoc}
use multi_script.Interface.Desc.{FunctionDesc}
use multi_script.GameMonkey.Api.{GmApi, Value, integer, function_info}
use multi_script.GameMonkey.Context.{GmScriptContext}
use multi_script.GameMonkey.Stack.{GmScriptStack, new, methods, gm_function_callback}

get_elem?-after :
    (xs : List Value) (v : Value) (ys : List Value) → get_elem? (xs ++ v ∷ ys) (length xs) ≡ some v
get_elem?-after [] v ys = refl
get_elem?-after (x ∷ xs) v ys = get_elem?-after xs v ys

map-append_ints : (xs ys : List CInt) → map integer (xs ++ ys) ≡ map integer xs ++ map integer ys
map-append_ints [] ys = refl
map-append_ints (x ∷ xs) ys = ap (λ (vs : List Value). integer x ∷ vs) (map-append_ints xs ys)

module _ (api : GmApi) (described : Classes) where
  open api use {
    State, parameters, pushed, num_params-length, param_int, param_int-value, parameters-push_int,
    pushed-push_int, thread_push_int, user_data, user_data-push_int,
  }

  -- A `GetNumParams` that counts down, which is not the binding's.
  abbrev left_to_pop : GmScriptStack api → Outcome (CInt × GmScriptStack api)
  left_to_pop s = ok (s.num_params - s.num_popped, s)

  abbrev counting_down : StackMethods (GmScriptStack api)
  counting_down = record (methods api described) { get_num_params = left_to_pop }

  module _ (args : List CInt) (base : List Value) (c0 : GmScriptContext api) where
    pub record Serving (s : GmScriptStack api) (params results : List CInt) : Type 0 where
      pub taken : List CInt
      pub split : args ≡ reverse params ++ taken
      pub holds : parameters s.context.machine ≡ map integer args
      pub made : pushed s.context.machine ≡ map integer (reverse results) ++ base
      pub users : user_data s.context.machine ≡ user_data c0.machine
      pub no_call : s.call ≡ none
      pub counted : s.num_params ≡ length params + length taken
      pub popped : s.num_popped ≡ length taken
      pub rest : s.context ≡ record c0 { machine = s.context.machine }

    pop_int-empty :
        (s : GmScriptStack api)
        → Serving s [] []
        → (t : GmScriptStack api) × (counting_down.pop_int s ≡ ok (none, t)) × Serving t [] []
    unfolding methods
    pop_int-empty s is =
        let all : (s.num_popped == s.num_params) ≡ true = ground (arith, is.counted, is.popped) in
        (s, rw all, is)

    next_argument :
        (s : GmScriptStack api) (p : CInt) (ps : List CInt)
        → Serving s (p ∷ ps) []
        → param_int (s.num_params - s.num_popped - 1) s.context.machine ≡ some p
    next_argument s p ps is =
        let index : s.num_params - s.num_popped - 1 ≡ length (map integer (reverse ps)) = omega (
          arith,
          is.counted,
          is.popped,
          length-reverse ps,
          length-map {0, 0} (reverse ps) (λ (v : CInt). integer v),
        ) in
        let here : parameters s.context.machine
            ≡ map integer (reverse ps) ++ integer p ∷ map integer is.taken =
          is.holds
          ∙ ap (map integer) is.split
          ∙ map-append_ints (reverse (p ∷ ps)) is.taken
          ∙ map-reverse-snoc integer p ps (map integer is.taken) in
        rw index (
          param_int-value (length (map integer (reverse ps))) s.context.machine {v = integer p} (
            rw here
              (get_elem?-after (map integer (reverse ps)) (integer p) (map integer is.taken))))

    pop_int-next :
        (s : GmScriptStack api) (p : CInt) (ps : List CInt)
        → Serving s (p ∷ ps) []
        → (t : GmScriptStack api) × (counting_down.pop_int s ≡ ok (some p, t)) × Serving t ps []
    unfolding methods
    pop_int-next s p ps is =
        let more : (s.num_popped == s.num_params) ≡ false = ground (arith, is.counted, is.popped) in
        (
          record s { num_popped = s.num_popped + 1 },
          rw (more, is.no_call, next_argument s p ps is),
          record {
            taken = p ∷ is.taken;
            split =
                is.split
                ∙ ap (λ (xs : List CInt). xs ++ is.taken) (reverse-append (p ∷ []) ps)
                ∙ append_assoc (reverse ps) (p ∷ []) is.taken;
            holds = is.holds;
            made = is.made;
            users = is.users;
            no_call = is.no_call;
            counted = omega (arith, is.counted);
            popped = omega (arith, is.popped);
            rest = is.rest;
          },
        )

    push_int-room :
        (s : GmScriptStack api) (v : CInt) (ps rs : List CInt)
        → any_room rs ≡ true
        → Serving s ps rs
        → (t : GmScriptStack api) × (counting_down.push_int v s ≡ ok (true, t))
          × Serving t ps (rs ++ v ∷ [])
    unfolding methods
    push_int-room s v ps rs room is =
        let m = thread_push_int v s.context.machine in
        (
          record s { context = record s.context { machine = m } },
          ground (arith, is.no_call),
          record {
            taken = is.taken;
            split = is.split;
            holds = parameters-push_int v s.context.machine ∙ is.holds;
            made =
                pushed-push_int v s.context.machine
                ∙ ap (λ (vs : List Value). integer v ∷ vs) is.made
                ∙ ap (λ (xs : List CInt). map integer xs ++ base)
                    (sym (reverse-append rs (v ∷ [])));
            users = user_data-push_int v s.context.machine ∙ is.users;
            no_call = is.no_call;
            counted = is.counted;
            popped = is.popped;
            rest = ap (λ (d : GmScriptContext api). record d { machine = m }) is.rest;
          },
        )

    counting_down-Refines : Refines counting_down any_room Serving
    counting_down-Refines = record {
      counts = λ s ps rs is.
          let count : s.num_params - s.num_popped ≡ length ps =
            omega (arith, is.counted, is.popped) in
          (s, ap (λ (n : CInt). ok (n, s)) count, is);
      pops_none = pop_int-empty;
      pops = pop_int-next;
      pushes = push_int-room;
      refuses = λ s v ps rs room is. absurd (cc);
    }

    -- What user code that keeps to the frame, and does not ask for the number of its parameters,
    -- does on the machine.
    pub run-frame :
        {R : Type 0} (p : Program R) {r : R} {f : Frame}
        → parameters c0.machine ≡ map integer args
        → pushed c0.machine ≡ base
        → Uncounted p
        → serve any_room p (reverse args) [] ≡ some (r, f)
        → (t : GmScriptStack api) × (run (methods api described) p (new api c0 none) ≡ ok (r, t))
          × Serving t f.params f.results
    unfolding new
    run-frame p holds start quiet e =
        let is : Serving (new api c0 none) (reverse args) [] = record {
          taken = [];
          split = sym (append-nil (reverse (reverse args)) ∙ reverse-reverse args);
          holds = holds;
          made = start;
          users = refl;
          no_call = refl;
          counted =
              num_params-length c0.machine
              ∙ ap (length {0} {A = Value}) holds
              ∙ omega
                  (arith, length-reverse args, length-map {0, 0} args (λ (v : CInt). integer v));
          popped = refl;
          rest = refl;
        } in
        let (t, ran, ends) =
          run-serve counting_down-Refines p (new api c0 none) (reverse args) [] is e in
        (t, run-Uncounted (methods api described) left_to_pop p (new api c0 none) quiet ∙ ran, ends)

  -- A registered function of the protocol that deals in integers, and does not ask for the number of
  -- its parameters, pops its arguments last to first when Game Monkey calls it. The callback leaves
  -- on the thread all that it pushed, in order, and the parameters as they were, and changes nothing
  -- else in the context.
  pub gm_function_callback-serve :
      (c : GmScriptContext api) (info : Pointer) (desc : FunctionDesc) (args : List CInt)
      {f : Frame}
      → get_elem? c.functions info ≡ some desc
      → parameters c.machine ≡ map integer args
      → Uncounted desc.function
      → serve any_room desc.function (reverse args) [] ≡ some (true, f)
      → (c' : GmScriptContext api) × (gm_function_callback api described (function_info info) c
          ≡ ok c')
        × (pushed c'.machine ≡ map integer (reverse f.results) ++ pushed c.machine)
        × (parameters c'.machine ≡ map integer args)
        × (c' ≡ record c { machine = c'.machine })
  unfolding gm_function_callback
  gm_function_callback-serve c info desc args known holds quiet e =
      let (t, ran, ends) = run-frame args (pushed c.machine) c desc.function holds refl quiet e in
      (t.context, rw (known, ran), ends.made, ends.holds, ends.rest)
