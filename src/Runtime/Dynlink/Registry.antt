-- ===== src/Runtime/Dynlink/Registry.antt =====
-- The functions that a program registers after `custom_caml_init` of ocaml/byterun/custom_startup.c.
use multi_script.Prelude.{
  Option, ℕ, ◌+◌, ◌*◌, ◌^◌, ◌≤◌, ◌<◌, ◌≡◌, refl, Bool, true, List, [], ◌∷◌, ◌++◌, append_assoc,
  append-nil, length, length-append, max, arith, Bytes, sym,
}
use mathlib.Core.Path.{subst}
use multi_script.Outcome.{Outcome, ok, ◌>>=◌}
use multi_script.Runtime.ExtTable.{ExtTable, ext_table_init}
use multi_script.Runtime.ExtTable.Growth.{IsTable, ext_table_add-append, ext_table_init-IsTable}
use multi_script.Runtime.Dynlink.{
  CFunction, Sources, lookup_primitive, custom_caml_register_c_function,
}
use multi_script.Runtime.Dynlink.Lookup.{
  resolve, lookup_primitive-resolve, HasRoom, register-HasRoom,
}

module _ {P U : Type 0} (granted : ℕ → Bool) where
  -- The end of `custom_caml_init`.
  unfoldable pub init_c_functions : Sources P U → Outcome (Sources P U)
  unfolding ext_table_init
  init_c_functions src = do t ← ext_table_init granted 64; ok (record src { c_functions = t })

module _ {P U : Type 0} (granted : ℕ → Bool) (usable : ℕ → Option ℕ) where
  -- The registrations of these functions, one after another.
  unfoldable pub register_all : List (CFunction P U) → Sources P U → Outcome (Sources P U)
  unfolding custom_caml_register_c_function
  register_all [] src = ok src
  register_all (f ∷ fs) src = do
    (status, src') ← custom_caml_register_c_function granted usable f.name f.prim f.user_data src
    register_all fs src'

  module _ (all : (n : ℕ) → granted n ≡ true) (enough : HasRoom usable) where
    register_all-IsTable :
        (fs before : List (CFunction P U)) (src : Sources P U)
        → IsTable src.c_functions before
        → src.c_functions.capacity ≤ max 64 (2 * length before)
        → length before + length fs < 2 ^ 27
        → (t : ExtTable (CFunction P U)) × (register_all fs src
            ≡ ok (record src { c_functions = t }))
          × IsTable t (before ++ fs)
    unfolding register_all
    register_all-IsTable [] before src is short few = (
      src.c_functions,
      refl,
      subst (λ (xs : List (CFunction P U)). IsTable src.c_functions xs) (sym (append-nil before))
          is,
    )
    register_all-IsTable (f ∷ fs) before src is short few =
        let (t₁, added, is₁, short₁) =
          ext_table_add-append granted src.c_functions before f is (omega (arith, short)) (all _) in
        let more = length-append {0} before (f ∷ []) in
        let (t, rest, ist) =
          register_all-IsTable fs (before ++ f ∷ []) (record src { c_functions = t₁ }) is₁
            (omega (arith, short, short₁, more)) (omega (arith, more)) in
        (
          t,
          rw (register-HasRoom granted usable f.name f.prim f.user_data src enough, added) rest,
          subst (λ (xs : List (CFunction P U)). IsTable t xs) (append_assoc before (f ∷ []) fs) ist,
        )

    -- After the start and any registrations, fewer than 2^27, if the allocator grants every request,
    -- and gives a block with room for three words when it is asked for the size of a pointer, the table holds the functions in the order of the registrations, and the lookup of
    -- any name gives the built-in primitive, else the symbol of a library, else the function that
    -- was registered first under the name, else nothing.
    pub register_all-resolve :
        (src : Sources P U) (fs : List (CFunction P U))
        → length fs < 2 ^ 27
        → (src' : Sources P U) × ((init_c_functions granted src >>= λ s. register_all fs s)
            ≡ ok src')
          × IsTable src'.c_functions fs
          × ((name : Bytes) → lookup_primitive src' name ≡ ok (resolve src fs name))
    unfolding init_c_functions resolve
    register_all-resolve src fs few =
        let (t₀, made, is₀, cap) =
          ext_table_init-IsTable {A = CFunction P U} granted 64 (omega arith) (omega arith)
            (all _) in
        let (t, ran, is) =
          register_all-IsTable fs [] (record src { c_functions = t₀ }) is₀ (omega (arith, cap))
            (omega arith) in
        let src' : Sources P U = record src { c_functions = t } in
        (src', rw made ran, is, λ name. lookup_primitive-resolve src' fs name is)
