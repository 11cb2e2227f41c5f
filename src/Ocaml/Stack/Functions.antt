-- ===== src/Ocaml/Stack/Functions.antt =====
-- A registered Ocaml function sees its arguments first to last, and returns at most one result.
use multi_script.Prelude.{
  suc, ◌+◌, ◌-◌, ◌≤◌, ◌≡◌, refl, sym, ap, ◌∙◌, Bool, true, false, none, some, List, [], ◌∷◌, ◌++◌,
  append_assoc, map, arith, length, length-append, length-map, get_elem?,
}
use multi_script.Outcome.{ok}
use multi_script.Interface.Program.{CInt, Program, run}
use multi_script.Interface.Frame.{Frame, serve}
use multi_script.Interface.Refinement.{Refines, run-serve}
use multi_script.Ocaml.Words.{Word, val_int, val_unit, Fits, int_val-val_int}
use multi_script.Ocaml.Stack.{OcamlScriptStack, new, methods}

-- An Ocaml function has room for one result.
abbrev pub one_result : List CInt → Bool
one_result [] = true
one_result (r ∷ rs) = false

-- The word that the callback returns.
abbrev pub result_word : List CInt → Word
result_word [] = val_unit
result_word (r ∷ rs) = val_int r

abbrev pub AllFit : List CInt → Type 0
AllFit [] = Unit
AllFit (x ∷ xs) = Fits x × AllFit xs

-- The stack of a function called with `popped ++ params`, of which `params` is left.
pub record Serving (popped : List CInt) (s : OcamlScriptStack) (params results : List CInt)
    : Type 0 where
  pub callee : s.is_call ≡ false
  pub values : s.values ≡ map val_int (popped ++ params)
  pub counted : s.num_params ≡ length params
  pub pushed : s.num_pushed ≡ length results
  pub single : length results ≤ 1
  pub result : s.result ≡ result_word results
  pub fit : AllFit params

abbrev pub Stands : OcamlScriptStack → List CInt → List CInt → Type 0
Stands s params results = (popped : List CInt) × Serving popped s params results

get_elem?-map_middle :
    (before : List CInt) (x : CInt) (after : List CInt)
    → get_elem? (map val_int (before ++ x ∷ after)) (length before) ≡ some (val_int x)
get_elem?-map_middle [] x after = refl
get_elem?-map_middle (y ∷ before) x after = get_elem?-map_middle before x after

index_of_next :
    (before : List CInt) (x : CInt) (after : List CInt)
    → length (map val_int (before ++ x ∷ after)) - suc (length after) ≡ length before
index_of_next before x after =
    omega
      (arith, length-map {0, 0} (before ++ x ∷ after) val_int, length-append {0} before (x ∷ after))

pop_int-next :
    (s : OcamlScriptStack) (p : CInt) (ps : List CInt)
    → Stands s (p ∷ ps) []
    → (t : OcamlScriptStack) × (methods.pop_int s ≡ ok (some p, t)) × Stands t ps []
unfolding methods
pop_int-next s p ps (popped, is) =
    let read : get_elem? s.values (length s.values - s.num_params) ≡ some (val_int p) =
      rw (is.values, is.counted, index_of_next popped p ps) (get_elem?-map_middle popped p ps) in
    (
      record s { num_params = s.num_params - 1 },
      ground (arith, is.callee, is.counted, read, int_val-val_int p is.fit.0),
      (
        popped ++ p ∷ [],
        record {
          callee = is.callee;
          values = is.values ∙ ap (map val_int) (sym (append_assoc popped (p ∷ []) ps));
          counted = omega (arith, is.counted);
          pushed = is.pushed;
          single = is.single;
          result = is.result;
          fit = is.fit.1;
        },
      ),
    )

push_int-room :
    (s : OcamlScriptStack) (v : CInt) (ps rs : List CInt)
    → one_result rs ≡ true
    → Stands s ps rs
    → (t : OcamlScriptStack) × (methods.push_int v s ≡ ok (true, t)) × Stands t ps (rs ++ v ∷ [])
unfolding methods
push_int-room s v ps (r ∷ rs) room is = cc
push_int-room s v ps [] room (popped, is) = (
  record s { result = val_int v; num_pushed = s.num_pushed + 1 },
  rw (is.callee, is.pushed),
  (
    popped,
    record {
      callee = is.callee;
      values = is.values;
      counted = is.counted;
      pushed = omega (arith, is.pushed);
      single = omega arith;
      result = refl;
      fit = is.fit;
    },
  ),
)

push_int-refused :
    (s : OcamlScriptStack) (v : CInt) (ps rs : List CInt)
    → one_result rs ≡ false
    → Stands s ps rs
    → (t : OcamlScriptStack) × (methods.push_int v s ≡ ok (false, t)) × Stands t ps rs
unfolding methods
push_int-refused s v ps [] room is = cc
push_int-refused s v ps (r ∷ rs) room (popped, is) =
    let one : s.num_pushed ≡ 1 = omega (arith, is.pushed, is.single) in
    (s, rw (is.callee, one), (popped, is))

methods-Refines : Refines methods one_result Stands
unfolding methods
methods-Refines = record {
  counts = λ s ps rs (popped, is). (s, rw is.counted, (popped, is));
  pops_none = λ s (popped, is). (s, rw (is.callee, is.counted), (popped, is));
  pops = pop_int-next;
  pushes = push_int-room;
  refuses = push_int-refused;
}

new-Stands : (args : List CInt) → AllFit args → Stands (new none (map val_int args)) args []
unfolding new
new-Stands args fit = (
  [],
  record {
    callee = refl;
    values = refl;
    counted = length-map {0, 0} args val_int;
    pushed = refl;
    single = omega arith;
    result = refl;
    fit = fit;
  },
)

-- A function of the protocol that deals in integers, called from Ocaml with arguments of at most 31
-- bits, runs to its end without a fault: it pops its arguments first to last, its first result is
-- what the callback returns (or unit, if it pushes none), and any later push is refused.
pub run-serve_ocaml :
    {R : Type 0} (p : Program R) (args : List CInt) {r : R} {f : Frame}
    → AllFit args
    → serve one_result p args [] ≡ some (r, f)
    → (t : OcamlScriptStack) × (run methods p (new none (map val_int args)) ≡ ok (r, t))
      × (t.result ≡ result_word f.results)
      × (t.num_params ≡ length f.params)
run-serve_ocaml p args {f} fit e =
    let (t, ran, (popped, is)) = run-serve methods-Refines p _ args [] (new-Stands args fit) e in
    (t, ran, is.result, is.counted)
