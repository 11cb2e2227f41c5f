-- ===== src/Ocaml/Context/Registered.antt =====
-- Registering functions in the context tells the runtime of each, in order.
use multi_script.Prelude.{
  ℕ, zero, suc, ◌≤◌, ◌≡◌, refl, ap, ◌∙◌, Bool, true, Option, none, some, List, [], ◌∷◌, ◌++◌,
  append_assoc, length, length-append, arith, Bytes, bytes_eq, ◌==◌, not, if◌then◌else◌,
}
use mathlib.Core.Path.{fun_ext}
use multi_script.Outcome.{Outcome, ok, stop, ◌>>=◌, ◌>>◌, assert}
use multi_script.Interface.Program.{CInt, Pointer}
use multi_script.Interface.Desc.{FunctionDesc}
use multi_script.Ocaml.Context.{
  OcamlScriptContext, Primitive, callback_0_args, callback_1_arg, callback_2_args, callback_of,
  register_with, register_function,
}
use multi_script.Runtime.ExtTable.{ExtTable, ext_table_add}
use multi_script.Runtime.Dynlink.{CFunction, Sources}
use multi_script.Runtime.Dynlink.Lookup.{HasRoom, register-HasRoom}
use multi_script.Runtime.Dynlink.Registry.{register_all}

-- The registrations of these functions, one after another.
unfoldable pub register_functions :
    (ℕ → Bool)
    → (ℕ → Option ℕ)
    → List FunctionDesc
    → OcamlScriptContext
    → Outcome OcamlScriptContext
unfolding register_function
register_functions granted usable [] c = ok c
register_functions granted usable (d ∷ ds) c = do
  (registered, c') ← register_function granted usable d c
  register_functions granted usable ds c'

abbrev pub callback_for : CInt → Primitive
callback_for zero = callback_0_args
callback_for (suc zero) = callback_1_arg
callback_for (suc (suc n)) = callback_2_args

-- What the runtime is told of these functions, the first of them at this position.
abbrev pub entries : ℕ → List FunctionDesc → List (CFunction Primitive Pointer)
entries k [] = []
entries k (d ∷ ds) =
    (record { name = d.name; prim = callback_for d.num_params; user_data = some k })
    ∷ entries (suc k) ds

-- Every function has two parameters at most.
abbrev pub Callable : List FunctionDesc → Type 0
Callable [] = Unit
Callable (d ∷ ds) = (d.num_params ≤ 2) × Callable ds

-- The function that was registered first under a name.
abbrev pub first_named : Bytes → List FunctionDesc → Option FunctionDesc
first_named name [] = none
first_named name (d ∷ ds) = if bytes_eq name d.name then some d else first_named name ds

pub callback_of-Callable : (n : CInt) → n ≤ 2 → callback_of n ≡ some (callback_for n)
unfolding callback_of
callback_of-Callable zero h = refl
callback_of-Callable (suc zero) h = refl
callback_of-Callable (suc (suc zero)) h = refl
callback_of-Callable (suc (suc (suc n))) h = absurd (omega arith)

pub length-entries : (k : ℕ) (ds : List FunctionDesc) → length (entries k ds) ≡ length ds
length-entries k [] = refl
length-entries k (d ∷ ds) = ap suc (length-entries (suc k) ds)

-- The context after the runtime holds these functions.
abbrev pub holding :
    OcamlScriptContext → List FunctionDesc → Sources Primitive Pointer → OcamlScriptContext
holding c [] src = record c { sources = src }
holding c (d ∷ ds) src = record c {
  sources = src;
  functions = c.functions ++ d ∷ ds;
  dirty_faked_dll = true;
}

pub holding-cons :
    (c : OcamlScriptContext) (d : FunctionDesc) (ds : List FunctionDesc)
    (src src' : Sources Primitive Pointer)
    → holding
        (record c { sources = src'; functions = c.functions ++ d ∷ []; dirty_faked_dll = true })
        ds
        src
      ≡ holding c (d ∷ ds) src
holding-cons c d [] src src' = refl
holding-cons c d (e ∷ ds) src src' =
    ap
      (λ (fs : List FunctionDesc). record c {
        sources = src;
        functions = fs;
        dirty_faked_dll = true;
      })
      (append_assoc c.functions (d ∷ []) (e ∷ ds))

-- `custom_caml_register_c_function` after its call of `caml_ext_table_add`.
abbrev stored :
    Sources Primitive Pointer
    → Outcome (ℕ × ExtTable (CFunction Primitive Pointer))
    → Outcome (ℕ × Sources Primitive Pointer)
stored src o = do (_, t) ← o; ok (1, record src { c_functions = t })

register-step :
    (granted : ℕ → Bool) (usable : ℕ → Option ℕ) (d : FunctionDesc) (ds : List FunctionDesc)
    (c : OcamlScriptContext) (o : Outcome (ℕ × ExtTable (CFunction Primitive Pointer)))
    → ((src : Sources Primitive Pointer)
        → register_functions granted usable ds
            (record c { sources = src; functions = c.functions ++ d ∷ []; dirty_faked_dll = true })
          ≡ (register_all granted usable (entries (suc (length c.functions)) ds) src >>= λ src'.
              ok (holding c (d ∷ ds) src')))
    → ((stored c.sources o >>= λ (r, src).
          assert (not (r == 0))
          >> ok (
            true,
            record c { sources = src; functions = c.functions ++ d ∷ []; dirty_faked_dll = true },
          ))
        >>= λ (b, c'). register_functions granted usable ds c')
      ≡ ((stored c.sources o >>= λ (r, src).
            register_all granted usable (entries (suc (length c.functions)) ds) src)
          >>= λ src. ok (holding c (d ∷ ds) src))
register-step granted usable d ds c (ok (i, t)) h = h (record c.sources { c_functions = t })
register-step granted usable d ds c (stop why) h = refl

pub register_functions-register_all :
    (granted : ℕ → Bool) (usable : ℕ → Option ℕ) (ds : List FunctionDesc) (c : OcamlScriptContext)
    → HasRoom usable
    → Callable ds
    → register_functions granted usable ds c ≡ (
        register_all granted usable (entries (length c.functions) ds) c.sources >>= λ src.
        ok (holding c ds src))
unfolding register_functions register_function register_with register_all
register_functions-register_all granted usable [] c room h = refl
register_functions-register_all granted usable (d ∷ ds) c room (few, h) =
    let count : length (c.functions ++ d ∷ []) ≡ suc (length c.functions) =
      omega (arith, length-append {0} c.functions (d ∷ [])) in
    let made =
      register-HasRoom granted usable d.name (callback_for d.num_params) (some (length c.functions))
        c.sources room in
    rw (callback_of-Callable d.num_params few, made)
      (register-step granted usable d ds c
        (ext_table_add granted c.sources.c_functions (record {
          name = d.name;
          prim = callback_for d.num_params;
          user_data = some (length c.functions);
        }))
        (λ src.
          rw count at (
            register_functions-register_all granted usable ds
              (record c {
                sources = src;
                functions = c.functions ++ d ∷ [];
                dirty_faked_dll = true;
              })
              room h)
          ∙ ap
              (λ (g : Sources Primitive Pointer → OcamlScriptContext).
                register_all granted usable (entries (suc (length c.functions)) ds) src >>= λ src'.
                ok (g src'))
              (fun_ext λ src'. holding-cons c d ds src' src)))
