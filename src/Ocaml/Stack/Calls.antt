-- ===== src/Ocaml/Stack/Calls.antt =====
-- A call of an Ocaml closure from C++: the arguments arrive in the order of their pushes.
use mathlib.Core.Path.{ap₂}
use multi_script.Prelude.{
  ℕ, ◌+◌, ◌≡◌, refl, ap, sym, ◌∙◌, true, none, some, List, [], ◌∷◌, ◌++◌, append_assoc, append-nil,
  map, arith, length,
}
use multi_script.Outcome.{ok}
use multi_script.Interface.Program.{CInt, run, push_ints}
use multi_script.Ocaml.Words.{Word, val_int, int_val, val_unit}
use multi_script.Ocaml.Engine.{OcamlEngine}
use multi_script.Ocaml.Stack.{OcamlScriptStack, new, methods, end_call, call_closure, pop_int}

-- The stack of a call of `c` that has been given these words, and so many of them counted.
abbrev pub calling : Word → List Word → ℕ → OcamlScriptStack
calling c ws k = record {
  num_pushed = k;
  num_params = 0;
  is_call = true;
  values = ws;
  result = val_unit;
  closure = some c;
}

run-push_ints :
    (c : Word) (ws : List Word) (k : ℕ) (vs : List CInt)
    → run methods (push_ints vs) (calling c ws k)
      ≡ ok (true, calling c (ws ++ map val_int vs) (k + length vs))
unfolding run push_ints methods
run-push_ints c ws k [] =
    ap₂ (λ (us : List Word) (n : ℕ). ok (true, calling c us n)) (sym (append-nil ws)) (omega arith)
run-push_ints c ws k (v ∷ vs) =
    run-push_ints c (ws ++ val_int v ∷ []) (k + 1) vs
    ∙ ap₂ (λ (us : List Word) (n : ℕ). ok (true, calling c us n))
        (append_assoc ws (val_int v ∷ []) (map val_int vs)) (omega arith)

module _ (e : OcamlEngine) where
  open e use {State, caml_callback_n, callback_one, callback_two, callback_three}

  call_closure-callback_n :
      (c v : Word) (vs : List Word) (st : State)
      → call_closure e c (v ∷ vs) st ≡ caml_callback_n c (v ∷ vs) st
  call_closure-callback_n c v [] st = callback_one c v st
  call_closure-callback_n c v (w ∷ []) st = callback_two c v w st
  call_closure-callback_n c v (w ∷ x ∷ []) st = callback_three c v w x st
  call_closure-callback_n c v (w ∷ x ∷ y ∷ vs) st = refl

  -- A call with at least one argument: every push succeeds, the closure is applied to the words of
  -- all of them in the order of the pushes, and if it returns, its word is the one result, which
  -- can be popped once.
  pub call_script_ocaml :
      (c : Word) (v : CInt) (vs : List CInt) (st st' : State) {r : Word}
      → caml_callback_n c (map val_int (v ∷ vs)) st ≡ ok (r, st')
      → (s t u : OcamlScriptStack) × (run methods (push_ints (v ∷ vs)) (new (some c) [])
          ≡ ok (true, s))
        × (end_call e s st ≡ ok (true, t, st'))
        × (pop_int t ≡ ok (some (int_val r), u))
        × (pop_int u ≡ ok (none, u))
  unfolding new end_call pop_int
  call_script_ocaml c v vs st st' {r} runs =
      let s : OcamlScriptStack = calling c (map val_int (v ∷ vs)) (length (v ∷ vs)) in
      let t : OcamlScriptStack = record s { result = r; num_params = 1 } in
      (
        s,
        t,
        record t { num_params = 0 },
        run-push_ints c [] 0 (v ∷ vs)
            ∙ ap (λ (n : ℕ). ok (true, calling c (map val_int (v ∷ vs)) n)) (omega arith),
        rw (call_closure-callback_n c (val_int v) (map val_int vs) st, runs),
        refl,
        refl,
      )
