-- ===== src/Runtime/Dynlink/Build.antt =====
-- `caml_build_primitive_table` fills its two tables side by side, or ends the process at the first
-- primitive that nothing provides.
use multi_script.Prelude.{
  ℕ, zero, suc, ◌+◌, ◌*◌, ◌^◌, ◌≤◌, ◌<◌, ◌≡◌, refl, true, Bool, Option, none, some, List, [], ◌∷◌,
  ◌++◌, append_assoc, append-nil, arith, length, length-append, max, Bytes, codes, get_elem?,
}
use multi_script.Outcome.{ok}
use multi_script.Runtime.ExtTable.{ExtTable, ext_table_init, ext_table_get}
use multi_script.Runtime.ExtTable.Growth.{
  IsTable, ext_table_add-append, ext_table_init-IsTable, ext_table_get-entry,
}
use multi_script.Runtime.Fatal.{FatalErrorFunc, caml_fatal_error_arg}
use multi_script.Runtime.Dynlink.{
  CFunction, Sources, build_loop, caml_build_primitive_table,
  custom_caml_get_current_c_function_user_data,
}
use multi_script.Runtime.Dynlink.Strings.{encode, AllNames, c_strings-encode}
use multi_script.Runtime.Dynlink.Lookup.{resolve, lookup_primitive-resolve}

module _ {P U : Type 0} where
  -- Each name with what it resolves to.
  abbrev pub Resolved :
      Sources P U → List (CFunction P U) → List Bytes → List (P × Option U) → Type 0
  Resolved src fs [] [] = Unit
  Resolved src fs [] (r ∷ rs) = ⊥
  Resolved src fs (n ∷ ns) [] = ⊥
  Resolved src fs (n ∷ ns) (r ∷ rs) = (resolve src fs n ≡ some r) × Resolved src fs ns rs

  abbrev pub prims_of : List (P × Option U) → List P
  prims_of [] = []
  prims_of ((p, u) ∷ rs) = p ∷ prims_of rs

  abbrev pub datas_of : List (P × Option U) → List (Option U)
  datas_of [] = []
  datas_of ((p, u) ∷ rs) = u ∷ datas_of rs

  -- The two tables stand for these lists, and are not much longer than they need to be.
  pub record Tables (pt : ExtTable P) (ut : ExtTable (Option U)) (ps : List P)
      (us : List (Option U)) : Type 0 where
    pub prims : IsTable pt ps
    pub datas : IsTable ut us
    pub prims_short : pt.capacity ≤ max 384 (2 * length ps)
    pub datas_short : ut.capacity ≤ max 384 (2 * length us)

  module _ (granted : ℕ → Bool) (fatal : FatalErrorFunc) (src : Sources P U)
      (fs : List (CFunction P U)) (all : (n : ℕ) → granted n ≡ true)
      (registered : IsTable src.c_functions fs) where
    build_loop-Tables :
        (ns : List Bytes) (rs : List (P × Option U)) (pt : ExtTable P) (ut : ExtTable (Option U))
        (ps : List P) (us : List (Option U))
        → Resolved src fs ns rs
        → Tables pt ut ps us
        → length ps + length ns < 2 ^ 27
        → length us + length ns < 2 ^ 27
        → (pt' : ExtTable P) × (ut' : ExtTable (Option U)) × (build_loop granted fatal src ns true
              (pt, ut)
            ≡ ok (pt', ut'))
          × IsTable pt' (ps ++ prims_of rs)
          × IsTable ut' (us ++ datas_of rs)
    unfolding build_loop
    build_loop-Tables [] [] pt ut ps us found is few few' =
        (pt, ut, refl, rw append-nil is.prims, rw append-nil is.datas)
    build_loop-Tables [] (r ∷ rs) pt ut ps us found is few few' = absurd found
    build_loop-Tables (n ∷ ns) [] pt ut ps us found is few few' = absurd found
    build_loop-Tables (n ∷ ns) ((p, u) ∷ rs) pt ut ps us found is few few' =
        let (pt₁, addp, isp, shortp) =
          ext_table_add-append granted pt ps p is.prims (omega (arith, is.prims_short)) (all _) in
        let (ut₁, addu, isu, shortu) =
          ext_table_add-append granted ut us u is.datas (omega (arith, is.datas_short)) (all _) in
        let lp = length-append {0} ps (p ∷ []) in
        let lu = length-append {0} us (u ∷ []) in
        let next : Tables pt₁ ut₁ (ps ++ p ∷ []) (us ++ u ∷ []) = record {
          prims = isp;
          datas = isu;
          prims_short = omega (arith, shortp, is.prims_short, lp);
          datas_short = omega (arith, shortu, is.datas_short, lu);
        } in
        let (pt', ut', run, isp', isu') =
          build_loop-Tables ns rs pt₁ ut₁ (ps ++ p ∷ []) (us ++ u ∷ []) found.1 next
            (omega (arith, lp)) (omega (arith, lu)) in
        (
          pt',
          ut',
          rw (lookup_primitive-resolve src fs n registered, found.0, addp, addu) run,
          rw append_assoc at isp',
          rw append_assoc at isu',
        )

    build_loop-unknown :
        (ns : List Bytes) (rs : List (P × Option U)) (bad : Bytes) (more : List Bytes)
        (pt : ExtTable P) (ut : ExtTable (Option U)) (ps : List P) (us : List (Option U))
        → Resolved src fs ns rs
        → resolve src fs bad ≡ none
        → Tables pt ut ps us
        → length ps + length ns < 2 ^ 27
        → length us + length ns < 2 ^ 27
        → build_loop granted fatal src (ns ++ bad ∷ more) true (pt, ut)
          ≡ caml_fatal_error_arg fatal (codes "Fatal error: unknown C primitive `%s'\n")
    unfolding build_loop
    build_loop-unknown [] [] bad more pt ut ps us found miss is few few' =
        rw (lookup_primitive-resolve src fs bad registered, miss)
    build_loop-unknown [] (r ∷ rs) bad more pt ut ps us found miss is few few' = absurd found
    build_loop-unknown (n ∷ ns) [] bad more pt ut ps us found miss is few few' = absurd found
    build_loop-unknown (n ∷ ns) ((p, u) ∷ rs) bad more pt ut ps us found miss is few few' =
        let (pt₁, addp, isp, shortp) =
          ext_table_add-append granted pt ps p is.prims (omega (arith, is.prims_short)) (all _) in
        let (ut₁, addu, isu, shortu) =
          ext_table_add-append granted ut us u is.datas (omega (arith, is.datas_short)) (all _) in
        let lp = length-append {0} ps (p ∷ []) in
        let lu = length-append {0} us (u ∷ []) in
        let next : Tables pt₁ ut₁ (ps ++ p ∷ []) (us ++ u ∷ []) = record {
          prims = isp;
          datas = isu;
          prims_short = omega (arith, shortp, is.prims_short, lp);
          datas_short = omega (arith, shortu, is.datas_short, lu);
        } in
        rw (lookup_primitive-resolve src fs n registered, found.0, addp, addu)
          (build_loop-unknown ns rs bad more pt₁ ut₁ (ps ++ p ∷ []) (us ++ u ∷ []) found.1 miss next
            (omega (arith, lp)) (omega (arith, lu)))

    empty_Tables :
        (pt : ExtTable P) × (ut : ExtTable (Option U)) × (ext_table_init granted 384 ≡ ok pt)
        × (ext_table_init granted 384 ≡ ok ut)
        × Tables pt ut [] []
    unfolding ext_table_init
    empty_Tables =
        let (pt, ep, isp, cp) =
          ext_table_init-IsTable {A = P} granted 384 (omega arith) (omega arith) (all _) in
        let (ut, eu, isu, cu) =
          ext_table_init-IsTable {A = Option U} granted 384 (omega arith) (omega arith) (all _) in
        (
          pt,
          ut,
          ep,
          eu,
          record {
            prims = isp;
            datas = isu;
            prims_short = omega (arith, cp);
            datas_short = omega (arith, cu);
          },
        )

    -- If the allocator grants every request and each of the required names, laid end to end, is
    -- provided, the two tables come out with the primitives and their user data in that order.
    pub caml_build_primitive_table-resolve :
        (ns : List Bytes) (rs : List (P × Option U))
        → AllNames ns
        → Resolved src fs ns rs
        → length ns < 2 ^ 27
        → (pt : ExtTable P) × (ut : ExtTable (Option U)) × (caml_build_primitive_table granted fatal
              src
              (encode ns)
            ≡ ok (pt, ut))
          × IsTable pt (prims_of rs)
          × IsTable ut (datas_of rs)
    unfolding caml_build_primitive_table
    caml_build_primitive_table-resolve ns rs names found few =
        let (pt, ut, ep, eu, is) = empty_Tables in
        let (pt', ut', run, isp, isu) =
          build_loop-Tables ns rs pt ut [] [] found is (omega arith) (omega arith) in
        (pt', ut', rw (ep, eu, c_strings-encode ns names) run, isp, isu)

    -- At the first required name that nothing provides, the fatal error is reported.
    pub caml_build_primitive_table-unknown :
        (ns : List Bytes) (rs : List (P × Option U)) (bad : Bytes) (more : List Bytes)
        → AllNames (ns ++ bad ∷ more)
        → Resolved src fs ns rs
        → resolve src fs bad ≡ none
        → length ns < 2 ^ 27
        → caml_build_primitive_table granted fatal src (encode (ns ++ bad ∷ more))
          ≡ caml_fatal_error_arg fatal (codes "Fatal error: unknown C primitive `%s'\n")
    unfolding caml_build_primitive_table
    caml_build_primitive_table-unknown ns rs bad more names found miss few =
        let (pt, ut, ep, eu, is) = empty_Tables in
        rw (ep, eu, c_strings-encode (ns ++ bad ∷ more) names)
          (build_loop-unknown ns rs bad more pt ut [] [] found miss is (omega arith) (omega arith))

-- With the tables of a build, the call of primitive number `pc` finds the user data of that name.
get_elem?-datas_of :
    {P U : Type 0} (rs : List (P × Option U)) (i : ℕ) {p : P} {u : Option U}
    → get_elem? rs i ≡ some (p, u)
    → (get_elem? (prims_of rs) i ≡ some p) × (get_elem? (datas_of rs) i ≡ some u)
get_elem?-datas_of [] i e = cc
get_elem?-datas_of ((q, v) ∷ rs) zero e = ground (arith)
get_elem?-datas_of ((q, v) ∷ rs) (suc i) e = get_elem?-datas_of rs i e

-- The two tables of a build agree index by index: primitive number `pc` of the code and the user
-- data that its callback asks for are those of one resolved name.
pub user_data_of_primitive :
    {P U : Type 0} (pt : ExtTable P) (ut : ExtTable (Option U)) (rs : List (P × Option U)) (pc : ℕ)
    {p : P} {u : Option U}
    → IsTable pt (prims_of rs)
    → IsTable ut (datas_of rs)
    → get_elem? rs pc ≡ some (p, u)
    → (ext_table_get pt pc ≡ ok p) × (custom_caml_get_current_c_function_user_data ut pc ≡ ok u)
unfolding custom_caml_get_current_c_function_user_data
user_data_of_primitive pt ut rs pc isp isu e =
    let (ep, eu) = get_elem?-datas_of rs pc e in
    (ext_table_get-entry pt _ pc isp ep, ext_table_get-entry ut _ pc isu eu)
