-- ===== src/Tests/RuntimeRuns.antt =====
-- The theorems of the extended Ocaml runtime at concrete inputs.
use multi_script.Prelude.{
  Bytes, ℕ, ◌+◌, ◌/◌, ◌≡◌, refl, Bool, true, false, Option, none, some, [], ◌∷◌, arith, codes, max,
  ◌≤◌, ◌*◌,
}
use multi_script.Outcome.{ok, ◌>>=◌}
use multi_script.Runtime.Dynlink.Registry.{init_c_functions, register_all, register_all-resolve}
use multi_script.Runtime.ExtTable.{ExtTable, ext_table_add}
use multi_script.Runtime.ExtTable.Growth.{IsTable, ext_table_add-append}
use multi_script.Runtime.Dynlink.{
  CFunction, Sources, lookup_primitive, caml_build_primitive_table, custom_caml_register_c_function,
  lookup_builtin, lookup_shared,
}
use multi_script.Runtime.Dynlink.Strings.{encode}
use multi_script.Runtime.Dynlink.Lookup.{resolve, lookup_primitive-register}
use multi_script.Runtime.Dynlink.Build.{caml_build_primitive_table-resolve}

abbrev pub granted : ℕ → Bool
granted n = true

-- Blocks have room for a multiple of sixteen bytes.
abbrev pub roomy : ℕ → Option ℕ
roomy n = some ((n + 15) / 16 * 16)

abbrev refused : ℕ → Bool
refused n = false

-- A full table of two entries.
abbrev full : ExtTable ℕ
full = record { size = 2; capacity = 2; contents = some 10 ∷ some 11 ∷ [] }

abbrev full-IsTable : IsTable full (10 ∷ 11 ∷ [])
full-IsTable = record {
  counted = refl;
  fits = omega arith;
  allocated = refl;
  nonempty = omega arith;
  bounded = omega arith;
  holds = (refl, (refl, tt));
}

ext_table_add-append_example :
    (u : ExtTable ℕ) × (ext_table_add granted full 12 ≡ ok (2, u))
    × IsTable u (10 ∷ 11 ∷ 12 ∷ [])
    × (u.capacity ≤ max 2 (2 * 2))
ext_table_add-append_example =
    ext_table_add-append granted full (10 ∷ 11 ∷ []) 12 full-IsTable (omega arith) refl

abbrev pub my_add_function : CFunction ℕ ℕ
my_add_function = record { name = codes "MyAdd"; prim = 500; user_data = some 900 }

-- One built-in primitive, and one registered function.
abbrev pub sources : Sources ℕ ℕ
sources = record {
  builtin = (codes "caml_ml_flush", 100) ∷ [];
  shared_libs = [];
  c_functions = record { size = 1; capacity = 2; contents = some my_add_function ∷ none ∷ [] };
}

abbrev pub sources-IsTable : IsTable sources.c_functions (my_add_function ∷ [])
sources-IsTable = record {
  counted = refl;
  fits = omega arith;
  allocated = refl;
  nonempty = omega arith;
  bounded = omega arith;
  holds = (refl, tt);
}

lookup_primitive-register_example :
    (src : Sources ℕ ℕ) × (custom_caml_register_c_function granted roomy
        (codes "PrintInt")
        501
        (some 901)
        sources
      ≡ ok (1, src))
    × (lookup_primitive src (codes "PrintInt") ≡ ok (some (501, some 901)))
lookup_primitive-register_example =
    lookup_primitive-register granted roomy 16 sources (my_add_function ∷ []) (codes "PrintInt") 501
      (some 901) refl sources-IsTable (omega arith) refl
      (unfold resolve lookup_builtin lookup_shared in refl)

caml_build_primitive_table-resolve_example :
    (pt : ExtTable ℕ) × (ut : ExtTable (Option ℕ)) × (caml_build_primitive_table granted none
        sources
        (encode (codes "MyAdd" ∷ codes "caml_ml_flush" ∷ []))
      ≡ ok (pt, ut))
    × IsTable pt (500 ∷ 100 ∷ [])
    × IsTable ut (some 900 ∷ none ∷ [])
caml_build_primitive_table-resolve_example =
    caml_build_primitive_table-resolve granted none sources (my_add_function ∷ []) (λ n. refl)
      sources-IsTable (codes "MyAdd" ∷ codes "caml_ml_flush" ∷ [])
      ((500, some 900) ∷ (100, none) ∷ []) ((λ e. cc, omega arith), ((λ e. cc, omega arith), tt))
      (unfold resolve lookup_builtin lookup_shared in (refl, (refl, tt))) (omega arith)

abbrev one_datum : ExtTable (Option ℕ)
one_datum = record { size = 1; capacity = 1; contents = some (some 900) ∷ [] }

abbrev one_prim : ExtTable ℕ
one_prim = record { size = 1; capacity = 1; contents = some 500 ∷ [] }

abbrev print_int_function : CFunction ℕ ℕ
print_int_function = record { name = codes "PrintInt"; prim = 501; user_data = some 901 }

register_all-resolve_example :
    (src : Sources ℕ ℕ) × ((init_c_functions granted sources >>= λ s.
    register_all granted roomy (my_add_function ∷ print_int_function ∷ []) s)
      ≡ ok src)
    × IsTable src.c_functions (my_add_function ∷ print_int_function ∷ [])
    × ((name : Bytes)
        → lookup_primitive src name
          ≡ ok (resolve sources (my_add_function ∷ print_int_function ∷ []) name))
register_all-resolve_example =
    register_all-resolve granted roomy (λ n. refl) (16, refl, omega arith) sources
      (my_add_function ∷ print_int_function ∷ []) (omega arith)
