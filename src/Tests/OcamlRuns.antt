-- ===== src/Tests/OcamlRuns.antt =====
-- The theorems of the Ocaml binding at concrete inputs.
use multi_script.Prelude.{
  replicate, Option, codes, ℕ, ◌+◌, ◌≡◌, refl, true, false, none, some, List, [], ◌∷◌, map, arith,
  inl,
}
use multi_script.Outcome.{ok}
use multi_script.Interface.Program.{Pointer}
use multi_script.Interface.Desc.{FunctionDesc}
use multi_script.Ocaml.Context.{OcamlScriptContext, Primitive, call_primitive}
use multi_script.Ocaml.Context.Registered.{register_functions}
use multi_script.Ocaml.Context.Served.{register_functions-call}
use multi_script.Runtime.Dynlink.{Sources, lookup_primitive, lookup_builtin, lookup_shared}
use multi_script.Runtime.Memory.{stat_alloc}
use multi_script.Runtime.Dynlink.Registry.{init_c_functions}
use multi_script.Tests.RuntimeRuns.{granted, roomy}
use multi_script.Interface.Program.{GenericFunction, done, pop_int, push_int, run, push_ints}
use multi_script.Interface.Frame.{frame, serve}
use multi_script.Ocaml.Words.{Word, val_int, int_val, val_unit}
use multi_script.Ocaml.Engine.{OcamlEngine}
use multi_script.Ocaml.Stack
use multi_script.Ocaml.Stack.{OcamlScriptStack}
use multi_script.Ocaml.Stack.Functions.{run-serve_ocaml}
use multi_script.Ocaml.Stack.Calls.{call_script_ocaml}

-- An engine whose closures add up nothing: each returns its first argument, and counts the calls.
abbrev first_or_unit : List Word → Word
first_or_unit [] = val_unit
first_or_unit (w ∷ ws) = w

abbrev engine : OcamlEngine
engine = record {
  State = ℕ;
  caml_callback = λ c a n. ok (a, n + 1);
  caml_callback2 = λ c a b n. ok (a, n + 1);
  caml_callback3 = λ c a b d n. ok (a, n + 1);
  caml_callback_n = λ c ws n. ok (first_or_unit ws, n + 1);
  callback_one = λ c a n. refl;
  callback_two = λ c a b n. refl;
  callback_three = λ c a b d n. refl;
}

-- Pops two, pushes the first, and tries to push the second.
abbrev first_of_two : GenericFunction
first_of_two = pop_int λ a. elim a [
  | none ↦ done false
  | some x ↦ pop_int λ b. push_int x λ pushed. push_int x λ again. done pushed
]

run-serve_ocaml_example :
    (t : OcamlScriptStack) × (run Stack.methods first_of_two
        (Stack.new none (map val_int (3 ∷ 4 ∷ [])))
      ≡ ok (true, t))
    × (t.result ≡ val_int 3)
    × (t.num_params ≡ 0)
run-serve_ocaml_example =
    run-serve_ocaml first_of_two (3 ∷ 4 ∷ []) {f = frame [] (3 ∷ [])}
      (inl (omega arith), (inl (omega arith), tt)) (unfold serve in refl)

call_script_ocaml_example :
    (s t u : OcamlScriptStack) × (run Stack.methods
        (push_ints (17 ∷ 14 ∷ []))
        (Stack.new (some 6) [])
      ≡ ok (true, s))
    × (Stack.end_call engine s 0 ≡ ok (true, t, 1))
    × (Stack.pop_int t ≡ ok (some (int_val 35), u))
    × (Stack.pop_int u ≡ ok (none, u))
call_script_ocaml_example =
    call_script_ocaml engine 6 17 (14 ∷ []) 0 1 {r = 35} (unfold val_int in refl)

abbrev described : FunctionDesc
described = record { name = codes "MyFirst"; function = first_of_two; num_params = 2 }

abbrev no_sources : Sources Primitive Pointer
no_sources = record {
  builtin = [];
  shared_libs = [];
  c_functions = record { size = 0; capacity = 0; contents = [] };
}

abbrev context : OcamlScriptContext
context = record {
  sources = record no_sources {
    c_functions = record { size = 0; capacity = 64; contents = replicate 64 none };
  };
  functions = [];
  classes = [];
  dirty_faked_dll = true;
  has_logger = false;
  log = [];
}

register_functions-call_example :
    (c' : OcamlScriptContext) × (prim : Primitive) × (user_data : Option Pointer)
    × (register_functions granted roomy (described ∷ []) context ≡ ok c')
    × (lookup_primitive c'.sources (codes "MyFirst") ≡ ok (some (prim, user_data)))
    × (call_primitive prim (map val_int (3 ∷ 4 ∷ [])) user_data c' ≡ ok (val_int 3))
register_functions-call_example =
    register_functions-call granted roomy no_sources context (described ∷ []) (codes "MyFirst")
      described (3 ∷ 4 ∷ []) {f = frame [] (3 ∷ [])} (λ n. refl) (16, refl, omega arith)
      (unfold init_c_functions in unfold stat_alloc in refl) refl (omega arith, tt) (omega arith)
      (unfold lookup_builtin in refl) (unfold lookup_shared in refl) refl refl
      (inl (omega arith), (inl (omega arith), tt)) (unfold serve in refl)
