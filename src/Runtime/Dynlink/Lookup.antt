-- ===== src/Runtime/Dynlink/Lookup.antt =====
-- What `lookup_primitive` finds: the built-in primitive, else a library's symbol, else the function
-- that was registered first under the name.
use multi_script.Prelude.{
  ℕ, suc, ◌≡◌, refl, ap, sym, ◌∙◌, true, Option, none, some, List, [], ◌∷◌, ◌++◌, append_assoc,
  arith, length, length-append, get_elem?, Bytes, bytes_eq, bytes_eq_refl, if◌then◌else◌, ◌^◌, ◌<◌,
  Bool, ◌*◌, leb, Bool-cases, inl, inr, ◌≤◌,
}
use multi_script.Outcome.{ok, stop, undefined, ◌>>=◌}
use multi_script.Runtime.Memory.{words_bytes, word_size}
use multi_script.Runtime.ExtTable.{ExtTable, ext_table_add}
use multi_script.Runtime.ExtTable.Growth.{IsTable, ext_table_get-entry, ext_table_add-append}
use multi_script.Runtime.Dynlink.{
  CFunction, Sources, lookup_builtin, lookup_shared, lookup_registered, lookup_primitive,
  custom_caml_register_c_function,
}

-- For a request of the size of a pointer, `malloc` gives a block that has room for three words.
abbrev pub HasRoom : (ℕ → Option ℕ) → Type 0
HasRoom usable = (room : ℕ) × (usable word_size ≡ some room) × (12 ≤ room)

module _ {P U : Type 0} where
  -- The first function of the list with the name.
  unfoldable pub first_registered : Bytes → List (CFunction P U) → Option (P × Option U)
  first_registered name [] = none
  first_registered name (f ∷ fs) =
      if bytes_eq name f.name then some (f.prim, f.user_data) else first_registered name fs

  -- The lookup over the list of registered functions.
  unfoldable pub resolve : Sources P U → List (CFunction P U) → Bytes → Option (P × Option U)
  unfolding first_registered
  resolve src fs name = elim (lookup_builtin name src.builtin) [
    | some p ↦ some (p, none)
    | none ↦ elim (lookup_shared name src.shared_libs) [
      | some p ↦ some (p, none)
      | none ↦ first_registered name fs
    ]
  ]

  get_elem?-middle :
      (before : List (CFunction P U)) (f : CFunction P U) (after : List (CFunction P U))
      → get_elem? (before ++ f ∷ after) (length before) ≡ some f
  get_elem?-middle [] f after = refl
  get_elem?-middle (x ∷ before) f after = get_elem?-middle before f after

  lookup_registered-first :
      (name : Bytes) (tbl : ExtTable (CFunction P U)) (before after : List (CFunction P U))
      → IsTable tbl (before ++ after)
      → lookup_registered name tbl (length before) (length after) ≡ ok (first_registered name after)
  unfolding lookup_registered first_registered
  lookup_registered-first name tbl before [] is = refl
  lookup_registered-first name tbl before (f ∷ after) is =
      let read = ext_table_get-entry tbl _ (length before) is (get_elem?-middle before f after) in
      let snoc : before ++ f ∷ after ≡ (before ++ f ∷ []) ++ after =
        sym (append_assoc before (f ∷ []) after) in
      let moved : length (before ++ f ∷ []) ≡ suc (length before) =
        omega (arith, length-append {0} before (f ∷ [])) in
      let ih = lookup_registered-first name tbl (before ++ f ∷ []) after (rw snoc at is) in
      rw (read, ← moved, ih) (ground arith)

  -- The lookup never faults, and its answer is that of `resolve`.
  pub lookup_primitive-resolve :
      (src : Sources P U) (fs : List (CFunction P U)) (name : Bytes)
      → IsTable src.c_functions fs
      → lookup_primitive src name ≡ ok (resolve src fs name)
  unfolding lookup_primitive resolve
  lookup_primitive-resolve src fs name is =
      let found : lookup_registered name src.c_functions 0 src.c_functions.size
          ≡ ok (first_registered name fs) =
        rw is.counted (lookup_registered-first name src.c_functions [] fs is) in
      ground (arith, found)

  first_registered-append :
      (name : Bytes) (fs : List (CFunction P U)) (f : CFunction P U)
      → first_registered name fs ≡ none
      → bytes_eq name f.name ≡ true
      → first_registered name (fs ++ f ∷ []) ≡ some (f.prim, f.user_data)
  unfolding first_registered
  first_registered-append name [] f e same = rw same
  first_registered-append name (g ∷ fs) f e same = ground (arith, first_registered-append name fs f)

  first_registered-append_known :
      (name : Bytes) (fs : List (CFunction P U)) (f : CFunction P U) {old : P × Option U}
      → first_registered name fs ≡ some old
      → first_registered name (fs ++ f ∷ []) ≡ some old
  unfolding first_registered
  first_registered-append_known name [] f e = cc
  first_registered-append_known name (g ∷ fs) f {old} e =
      ground (arith, first_registered-append_known name fs f {old = old})

  resolve-append :
      (src : Sources P U) (t : ExtTable (CFunction P U)) (fs : List (CFunction P U)) (name : Bytes)
      (f : CFunction P U)
      → resolve src fs name ≡ none
      → bytes_eq name f.name ≡ true
      → resolve (record src { c_functions = t }) (fs ++ f ∷ []) name ≡ some (f.prim, f.user_data)
  unfolding resolve
  resolve-append src t fs name f e same = ground (arith, first_registered-append name fs f)

  resolve-append_known :
      (src : Sources P U) (t : ExtTable (CFunction P U)) (fs : List (CFunction P U)) (name : Bytes)
      (f : CFunction P U) {old : P × Option U}
      → resolve src fs name ≡ some old
      → resolve (record src { c_functions = t }) (fs ++ f ∷ []) name ≡ some old
  unfolding resolve
  resolve-append_known src t fs name f {old} e =
      ground (arith, first_registered-append_known name fs f {old = old})

  -- A registration when `malloc` gives a block that is large enough.
  pub register-HasRoom :
      (granted : ℕ → Bool) (usable : ℕ → Option ℕ) (name : Bytes) (p : P) (user_data : Option U)
      (src : Sources P U)
      → HasRoom usable
      → custom_caml_register_c_function granted usable name p user_data src ≡ (
          ext_table_add granted src.c_functions
            (record { name = name; prim = p; user_data = user_data })
          >>= λ (_, t). ok (1, record src { c_functions = t }))
  unfolding custom_caml_register_c_function
  register-HasRoom granted usable name p user_data src (room, given, enough) =
      let fits : leb (3 * word_size) room ≡ true = ground arith in rw (given, fits)

  -- The table of registered functions is well formed, with fewer than 2^29 cells, and the allocator
  -- grants the block for twice as many; `malloc` gives a block when it is asked for the size of a
  -- pointer. If that block has room for three words, a function is found after its registration, with
  -- its user data, under a name that is not built in, nor a library's symbol, nor registered yet. If it
  -- has less room, the registration is undefined.
  pub lookup_primitive-register :
      (granted : ℕ → Bool) (usable : ℕ → Option ℕ) (room : ℕ) (src : Sources P U)
      (fs : List (CFunction P U)) (name : Bytes) (p : P) (user_data : Option U)
      → usable word_size ≡ some room
      → IsTable src.c_functions fs
      → src.c_functions.capacity < 2 ^ 29
      → granted (words_bytes (src.c_functions.capacity * 2)) ≡ true
      → resolve src fs name ≡ none
      → (src' : Sources P U) × (custom_caml_register_c_function granted usable name p user_data src
          ≡ (if leb 12 room then ok (1, src') else stop undefined))
        × (lookup_primitive src' name ≡ ok (some (p, user_data)))
  unfolding custom_caml_register_c_function
  lookup_primitive-register granted usable room src fs name p user_data given is small g fresh =
      let f : CFunction P U = record { name = name; prim = p; user_data = user_data } in
      let (t, added, ist, _) = ext_table_add-append granted src.c_functions fs f is small g in
      let src' : Sources P U = record src { c_functions = t } in
      (
        src',
        elim (Bool-cases (leb 12 room)) [
          | inl fits ↦ rw (given, fits, added)
          | inr small_block ↦ rw (given, small_block)
        ],
        lookup_primitive-resolve src' (fs ++ f ∷ []) name ist
            ∙ ap ok (resolve-append src t fs name f fresh (bytes_eq_refl name)),
      )

  -- Registering a name again, in a block that is large enough, changes nothing: the function that was
  -- registered first stays.
  pub lookup_primitive-register_again :
      (granted : ℕ → Bool) (usable : ℕ → Option ℕ) (src : Sources P U) (fs : List (CFunction P U))
      (name : Bytes) (p : P) (user_data : Option U) {old : P × Option U}
      → IsTable src.c_functions fs
      → src.c_functions.capacity < 2 ^ 29
      → granted (words_bytes (src.c_functions.capacity * 2)) ≡ true
      → resolve src fs name ≡ some old
      → HasRoom usable
      → (src' : Sources P U) × (custom_caml_register_c_function granted usable name p user_data src
          ≡ ok (1, src'))
        × (lookup_primitive src' name ≡ ok (some old))
  lookup_primitive-register_again granted usable src fs name p user_data {old} is small g known
        enough =
      let f : CFunction P U = record { name = name; prim = p; user_data = user_data } in
      let (t, added, ist, _) = ext_table_add-append granted src.c_functions fs f is small g in
      let src' : Sources P U = record src { c_functions = t } in
      (
        src',
        register-HasRoom granted usable name p user_data src enough ∙ rw added refl,
        lookup_primitive-resolve src' (fs ++ f ∷ []) name ist
            ∙ ap ok (resolve-append_known src t fs name f known),
      )
