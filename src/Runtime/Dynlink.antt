-- ===== src/Runtime/Dynlink.antt =====
-- ocaml/byterun/dynlink.c: the table of C primitives that a byte-code file asks for, with the
-- functions that `custom_caml_register_c_function` of custom_startup.c has added at run time.
pub mod Strings
pub mod Lookup
pub mod Build
pub mod Registry
use multi_script.Prelude.{
  ℕ, zero, suc, Bool, true, false, Option, none, some, List, [], ◌∷◌, Bytes, bytes_eq, codes,
  if◌then◌else◌, ◌*◌, leb,
}
use multi_script.Outcome.{Outcome, ok, stop, undefined, ◌>>=◌, ◌>>◌, require}
use multi_script.Interface.Shared.{deref}
use multi_script.Runtime.Memory.{word_size}
use multi_script.Runtime.ExtTable.{ExtTable, ext_table_init, ext_table_add, ext_table_get}
use multi_script.Runtime.Fatal.{FatalErrorFunc, caml_fatal_error_arg}
use multi_script.Runtime.Dynlink.Strings.{c_strings}

-- `struct caml_c_function`; `P` is the type of C function pointers, and `U` that of what a
-- `void *user_data` points to, which may be null.
pub record CFunction (P U : Type 0) : Type 0 where
  pub name : Bytes
  pub prim : P
  pub user_data : Option U

-- What the lookup of a primitive goes through: the two generated arrays of built-in primitives,
-- entry by entry, the open libraries with their symbols, and the table of registered functions.
pub record Sources (P U : Type 0) : Type 0 where
  pub builtin : List (Bytes × P)
  pub shared_libs : List (Bytes → Option P)
  pub c_functions : ExtTable (CFunction P U)

module _ {P : Type 0} where
  -- The first loop of `lookup_primitive`.
  unfoldable pub lookup_builtin : Bytes → List (Bytes × P) → Option P
  lookup_builtin name [] = none
  lookup_builtin name ((n, p) ∷ rest) = if bytes_eq name n then some p else lookup_builtin name rest

  -- The second loop: `caml_dlsym` in each open library.
  unfoldable pub lookup_shared : Bytes → List (Bytes → Option P) → Option P
  lookup_shared name [] = none
  lookup_shared name (lib ∷ rest) = elim (lib name) [
    | some p ↦ some p
    | none ↦ lookup_shared name rest
  ]

module _ {P U : Type 0} where
  -- The third loop, from index `i` on for that many rounds.
  unfoldable pub lookup_registered :
      Bytes → ExtTable (CFunction P U) → ℕ → ℕ → Outcome (Option (P × Option U))
  unfolding ext_table_get
  lookup_registered name tbl i zero = ok none
  lookup_registered name tbl i (suc rounds) = do
    f ← ext_table_get tbl i
    let rest = lookup_registered name tbl (suc i) rounds
    if bytes_eq name f.name then ok (some (f.prim, f.user_data)) else rest

  -- The primitive, and what is left in `*prim_user_data`, which is null before the call.
  unfoldable pub lookup_primitive : Sources P U → Bytes → Outcome (Option (P × Option U))
  unfolding lookup_builtin lookup_shared lookup_registered
  lookup_primitive src name = elim (lookup_builtin name src.builtin) [
    | some p ↦ ok (some (p, none))
    | none ↦ elim (lookup_shared name src.shared_libs) [
      | some p ↦ ok (some (p, none))
      | none ↦ lookup_registered name src.c_functions 0 src.c_functions.size
    ]
  ]

  module _ (granted : ℕ → Bool) (fatal : FatalErrorFunc) (src : Sources P U) where
    -- `caml_prim_table` and `caml_prim_table_user_data`
    abbrev pub PrimTables : Type 0
    PrimTables = ExtTable P × ExtTable (Option U)

    -- The loop over `req_prims`; the walk leaves the block if no empty string ends it.
    unfoldable pub build_loop : List Bytes → Bool → PrimTables → Outcome PrimTables
    unfolding ext_table_add caml_fatal_error_arg
    build_loop [] true tables = ok tables
    build_loop [] false tables = stop undefined
    build_loop (name ∷ names) ended (prims, datas) = do
      found ← lookup_primitive src name
      elim found [
        | none ↦ caml_fatal_error_arg fatal (codes "Fatal error: unknown C primitive `%s'\n")
        | some (prim, user_data) ↦ do
          (_, prims') ← ext_table_add granted prims prim
          (_, datas') ← ext_table_add granted datas user_data
          build_loop names ended (prims', datas')
      ]

    -- `caml_build_primitive_table`, from where it makes the tables.
    unfoldable pub caml_build_primitive_table : Bytes → Outcome PrimTables
    unfolding build_loop ext_table_init c_strings
    caml_build_primitive_table req_prims = do
      prims ← ext_table_init granted 0x180
      datas ← ext_table_init granted 0x180
      let (names, ended) = c_strings [] req_prims
      build_loop names ended (prims, datas)

  -- `custom_caml_register_c_function` of custom_startup.c. Its `malloc` asks for the size of a pointer,
  -- and the result is not tested; `usable` has the bytes for which the block of `malloc` has room, or
  -- `none` for a null pointer. The three members of the structure take three words.
  unfoldable pub custom_caml_register_c_function :
      (ℕ → Bool) → (ℕ → Option ℕ) → Bytes → P → Option U → Sources P U → Outcome (ℕ × Sources P U)
  unfolding ext_table_add
  custom_caml_register_c_function granted usable name prim user_data src = do
    room ← deref (usable word_size)
    require (leb (3 * word_size) room)
    (_, t) ←
        ext_table_add granted src.c_functions
          (record { name = name; prim = prim; user_data = user_data })
    ok (1, record src { c_functions = t })

-- `custom_caml_get_current_c_function_user_data` of interp.c, with the operand `*pc`.
unfoldable pub custom_caml_get_current_c_function_user_data :
    {U : Type 0} → ExtTable (Option U) → ℕ → Outcome (Option U)
unfolding ext_table_get
custom_caml_get_current_c_function_user_data datas pc = ext_table_get datas pc
