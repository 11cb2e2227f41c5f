-- ===== src/Ocaml/Context/Served.antt =====
-- A registered function is found by its name, and a call of it runs the right code on its arguments.
use multi_script.Prelude.{
  ℕ, suc, ◌+◌, ◌^◌, ◌≤◌, ◌<◌, ◌≡◌, refl, ap, ◌∙◌, Bool, true, Option, none, some, List, [], ◌∷◌,
  ◌++◌, map, length, get_elem?, arith, Bytes, bytes_eq, Bool-cases, inl, inr,
}
use mathlib.Core.Path.{ap₂}
use multi_script.Outcome.{ok}
use multi_script.Interface.Program.{CInt, Pointer}
use multi_script.Interface.Frame.{Frame, serve}
use multi_script.Interface.Desc.{FunctionDesc}
use multi_script.Ocaml.Words.{Word, val_int, val_unit}
use multi_script.Ocaml.Stack.Functions.{one_result, AllFit, result_word, run-serve_ocaml}
use multi_script.Ocaml.Context.{
  OcamlScriptContext, Primitive, serve_callback, call_primitive, ocaml_function_callback_0_args,
  ocaml_function_callback_1_arg, ocaml_function_callback_2_args,
}
use multi_script.Runtime.Dynlink.{
  CFunction, Sources, lookup_primitive, lookup_builtin, lookup_shared,
}
use multi_script.Runtime.Dynlink.Lookup.{HasRoom, resolve, first_registered}
use multi_script.Runtime.Dynlink.Registry.{init_c_functions, register_all, register_all-resolve}
use multi_script.Ocaml.Context.Registered.{
  register_functions, callback_for, entries, Callable, first_named, holding, length-entries,
  register_functions-register_all,
}

some_same : {A : Type 0} (a b : A) → ◌≡◌ {A = Option A} (some a) (some b) → a ≡ b
some_same a b e = ground arith

-- The function that was registered first under a name is the one that its entry leads to.
first_registered-first_named :
    (name : Bytes) (ds : List FunctionDesc) (k : ℕ) {d : FunctionDesc}
    → first_named name ds ≡ some d
    → (j : ℕ) × (get_elem? ds j ≡ some d)
      × (first_registered name (entries k ds) ≡ some (callback_for d.num_params, some (k + j)))
unfolding first_registered
first_registered-first_named name [] k e = cc
first_registered-first_named name (d ∷ ds) k {d = d'} e = elim (Bool-cases (bytes_eq name d.name)) [
  | inl same ↦
      let is = some_same d d' (rw same at e) in
      (
        0,
        rw same at e,
        rw same (
            ap₂ (λ (x : FunctionDesc) (n : ℕ). some (callback_for x.num_params, some n)) is
              (omega arith)),
      )
  | inr other ↦
      let (j, there, found) =
        first_registered-first_named name ds (suc k) {d = d'} (rw other at e) in
      (
        suc j,
        there,
        rw other (found ∙ ap (λ (n : ℕ). some (callback_for d'.num_params, some n)) (omega arith)),
      )
]

-- The words of a call on these integers.
abbrev pub call_words : List CInt → List Word
call_words [] = val_unit ∷ []
call_words (a ∷ args) = map val_int (a ∷ args)

-- A function with this many parameters, called on so many words of integers of at most 31 bits.
call_primitive-serve :
    (d : FunctionDesc) (j : Pointer) (args : List CInt) (c : OcamlScriptContext) {f : Frame}
    → get_elem? c.functions j ≡ some d
    → d.num_params ≡ length args
    → length args ≤ 2
    → AllFit args
    → serve one_result d.function args [] ≡ some (true, f)
    → call_primitive (callback_for d.num_params) (call_words args) (some j) c
      ≡ ok (result_word f.results)
unfolding call_primitive ocaml_function_callback_0_args ocaml_function_callback_1_arg
    ocaml_function_callback_2_args serve_callback
call_primitive-serve d j [] c there count few fit e =
    let (t, ran, result, _) = run-serve_ocaml d.function [] fit e in
    rw (count, there, count, ran, result)
call_primitive-serve d j (a ∷ []) c there count few fit e =
    let (t, ran, result, _) = run-serve_ocaml d.function (a ∷ []) fit e in
    rw (count, there, count, ran, result)
call_primitive-serve d j (a ∷ b ∷ []) c there count few fit e =
    let (t, ran, result, _) = run-serve_ocaml d.function (a ∷ b ∷ []) fit e in
    rw (count, there, count, ran, result)
call_primitive-serve d j (a ∷ b ∷ x ∷ args) c there count few fit e = absurd (omega arith)

first_named-Callable :
    (name : Bytes) (ds : List FunctionDesc) {d : FunctionDesc}
    → Callable ds
    → first_named name ds ≡ some d
    → d.num_params ≤ 2
first_named-Callable name [] h e = cc
first_named-Callable name (d ∷ ds) {d = d'} (few, h) e = elim (Bool-cases (bytes_eq name d.name)) [
  | inl same ↦ rw (some_same d d' (rw same at e)) at few
  | inr other ↦ first_named-Callable name ds {d = d'} h (rw other at e)
]

holding-sources :
    (c : OcamlScriptContext) (ds : List FunctionDesc) (src : Sources Primitive Pointer)
    → (holding c ds src).sources ≡ src
holding-sources c [] src = refl
holding-sources c (d ∷ ds) src = refl

holding-functions :
    (c : OcamlScriptContext) (ds : List FunctionDesc) (src : Sources Primitive Pointer)
    → c.functions ≡ []
    → (holding c ds src).functions ≡ ds
holding-functions c [] src empty = empty
holding-functions c (d ∷ ds) src empty = ap (λ (fs : List FunctionDesc). fs ++ d ∷ ds) empty

resolve-registered :
    (src : Sources Primitive Pointer) (es : List (CFunction Primitive Pointer)) (name : Bytes)
    {found : Primitive × Option Pointer}
    → lookup_builtin name src.builtin ≡ none
    → lookup_shared name src.shared_libs ≡ none
    → first_registered name es ≡ some found
    → resolve src es name ≡ some found
unfolding resolve
resolve-registered src es name builtin shared first = ground (arith, builtin, shared, first)

-- A new context of a runtime that was just started, in which functions of two parameters at most are
-- registered, fewer than 2^27, if the allocator grants every request, and gives a block with room for
-- three words when it is asked for the size of a pointer: every registration succeeds; and under a name that is neither built in nor a library's symbol, the runtime finds a primitive
-- that runs the function registered first under it. Called on as many integers of at most 31 bits as
-- the function has parameters, or on unit if it has none, if the function keeps to the protocol that deals in integers, it
-- returns the word of the function's first result, or unit.
pub register_functions-call :
    (granted : ℕ → Bool) (usable : ℕ → Option ℕ) (src : Sources Primitive Pointer)
    (c : OcamlScriptContext) (ds : List FunctionDesc) (name : Bytes) (d : FunctionDesc)
    (args : List CInt) {f : Frame}
    → ((n : ℕ) → granted n ≡ true)
    → HasRoom usable
    → init_c_functions granted src ≡ ok c.sources
    → c.functions ≡ []
    → Callable ds
    → length ds < 2 ^ 27
    → lookup_builtin name src.builtin ≡ none
    → lookup_shared name src.shared_libs ≡ none
    → first_named name ds ≡ some d
    → d.num_params ≡ length args
    → AllFit args
    → serve one_result d.function args [] ≡ some (true, f)
    → (c' : OcamlScriptContext) × (prim : Primitive) × (user_data : Option Pointer)
      × (register_functions granted usable ds c ≡ ok c')
      × (lookup_primitive c'.sources name ≡ ok (some (prim, user_data)))
      × (call_primitive prim (call_words args) user_data c' ≡ ok (result_word f.results))
register_functions-call granted usable src c ds name d args all enough started empty callable few
      builtin shared first count fit e =
    let es = entries 0 ds in
    let (src', ran, is, finds) =
      register_all-resolve granted usable all enough src es (rw (length-entries 0 ds) few) in
    let (j, there, found) = first_registered-first_named name ds 0 {d = d} first in
    let same : 0 + j ≡ j = omega arith in
    let found' : first_registered name es ≡ some (callback_for d.num_params, some j) =
      rw same at found in
    let c' = holding c ds src' in
    let registered : register_all granted usable es c.sources ≡ ok src' = rw started at ran in
    let functions : c'.functions ≡ ds = holding-functions c ds src' empty in
    (
      c',
      callback_for d.num_params,
      some j,
      register_functions-register_all granted usable ds c enough callable
          ∙ rw (empty, registered) refl,
      ap (λ (sources : Sources Primitive Pointer). lookup_primitive sources name)
            (holding-sources c ds src')
          ∙ finds name
          ∙ ap ok (resolve-registered src es name builtin shared found'),
      call_primitive-serve d j args c' (rw functions there) count
          (omega (arith, first_named-Callable name ds {d = d} callable first, count)) fit e,
    )
