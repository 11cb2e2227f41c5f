-- ===== src/Runtime/Bytecode/Load/Loaded.antt =====
-- A well formed byte-code file loads: its code, its globals, and a table of its primitives.
use multi_script.Prelude.{
  none, ℕ, ◌+◌, ◌^◌, ◌<◌, ◌≡◌, refl, ap, ◌∙◌, Bool, true, Option, some, List, [], ◌∷◌, ◌++◌,
  reverse, Bytes, codes, ◌==◌, length, arith, drop,
}
use multi_script.Outcome.{Outcome, ok}
use multi_script.Runtime.ExtTable.Growth.{IsTable}
use multi_script.Runtime.Fatal.{FatalErrorFunc, caml_fatal_error_arg, >>=-fatal_error}
use multi_script.Runtime.Dynlink.{CFunction, Sources}
use multi_script.Runtime.Dynlink.Strings.{encode, AllNames}
use multi_script.Runtime.Dynlink.Build.{
  Resolved, prims_of, datas_of, caml_build_primitive_table-resolve,
}
use multi_script.Runtime.Bytecode.File.{Fd, take-middle, drop-front}
use multi_script.Runtime.Bytecode.Layout.{Section, write, AllNamed, first_section}
use multi_script.Runtime.Bytecode.Toc.{allocate-granted, open_sections}
use multi_script.Runtime.Bytecode.Sections.{
  caml_seek_section-named, caml_seek_section-lacking, read_section-named,
}
use multi_script.Runtime.Bytecode.Load.{
  CamlCode, caml_load_code, load_sections, custom_caml_load_code,
}

module _ (granted : ℕ → Bool) (fatal : FatalErrorFunc) (all : (n : ℕ) → granted n ≡ true) where
  caml_load_code-middle :
      (fd : Fd) (front d back : Bytes)
      → fd.contents ≡ front ++ (d ++ back)
      → fd.position ≡ length front
      → caml_load_code granted fatal fd (length d)
        ≡ ok (d, record fd { position = length front + length d })
  unfolding caml_load_code
  caml_load_code-middle fd front d back file at =
      let got = take-middle fd.contents front d back file in
      let same : (length d == length d) ≡ true = ground arith in
      rw (at, allocate-granted granted fatal all (length d), got, same)

  module _ {P U V : Type 0} (src : Sources P U) (caml_input_val : Bytes → Outcome V)
      (fs : List (CFunction P U)) (registered : IsTable src.c_functions fs) where
    -- A file is laid out from sections with names of four bytes, after any junk, in fewer than 2^31
    -- bytes. If its last CODE section holds `code`, its last PRIM section the names of primitives
    -- that are all provided, and its last DATA section bytes that read as the value `v` whatever
    -- follows, and if the allocator grants every request, then the load returns 1, with the code,
    -- its length, the value, and the tables of the primitives and of their user data in the order
    -- of the names.
    pub custom_caml_load_code-write :
        (files : Bytes → Option Bytes) (path junk : Bytes) (ss : List Section)
        (code prim data_bytes : Bytes) (ns : List Bytes) (rs : List (P × Option U)) (v : V)
        → files path ≡ some (write junk ss)
        → AllNamed ss
        → length (write junk ss) < 2 ^ 31
        → first_section (codes "CODE") (reverse ss) ≡ some code
        → first_section (codes "PRIM") (reverse ss) ≡ some prim
        → prim ++ 0 ∷ [] ≡ encode ns
        → first_section (codes "DATA") (reverse ss) ≡ some data_bytes
        → ((back : Bytes) → caml_input_val (data_bytes ++ back) ≡ ok v)
        → AllNames ns
        → Resolved src fs ns rs
        → length ns < 2 ^ 27
        → (loaded : CamlCode P U V) × (custom_caml_load_code granted fatal src caml_input_val files
              path
            ≡ ok (1, loaded))
          × (loaded.start_code ≡ code)
          × (loaded.code_size ≡ length code)
          × (loaded.global_data ≡ v)
          × IsTable loaded.prim_table (prims_of rs)
          × IsTable loaded.prim_table_user_data (datas_of rs)
    unfolding custom_caml_load_code load_sections
    custom_caml_load_code-write files path junk ss code prim data_bytes ns rs v there named small
          has_code has_prim laid has_data reads names found few =
        let (fd, fd1, trail, toc, open_ok, toc_ok, file1, is) =
          open_sections granted fatal all files path junk ss there named small in
        let (front, back, file2, code_ok) =
          caml_seek_section-named granted fatal all (codes "CODE") code junk ss fd1 toc is file1
            has_code in
        let fd2 : Fd = record fd1 { position = length front } in
        let load_ok = caml_load_code-middle fd2 front code back file2 refl in
        let fd3 : Fd = record fd1 { position = length front + length code } in
        let (fd4, dlpt_ok, file4) =
          read_section-named granted fatal all (codes "DLPT") junk ss fd3 toc is file1 in
        let (fd5, dlls_ok, file5) =
          read_section-named granted fatal all (codes "DLLS") junk ss fd4 toc is file4 in
        let (fd6, prim_ok, file6) =
          read_section-named granted fatal all (codes "PRIM") junk ss fd5 toc is file5 in
        let (prims, datas, build_ok, isp, isd) =
          caml_build_primitive_table-resolve granted fatal src fs all registered ns rs names found
            few in
        let (front7, back7, file7, data_ok) =
          caml_seek_section-named granted fatal all (codes "DATA") data_bytes junk ss fd6 toc is
            file6 has_data in
        let rest : drop (length front7) fd6.contents ≡ data_bytes ++ back7 =
          ap (drop {0} {A = ℕ} (length front7)) file7 ∙ drop-front front7 (data_bytes ++ back7) in
        (
          record {
            start_code = code;
            code_size = length code;
            global_data = v;
            prim_table = prims;
            prim_table_user_data = datas;
          },
          rw (
            open_ok,
            toc_ok,
            code_ok,
            load_ok,
            dlpt_ok,
            dlls_ok,
            prim_ok,
            has_prim,
            laid,
            build_ok,
            data_ok,
            rest,
            reads back7,
          ),
          refl,
          refl,
          refl,
          isp,
          isd,
        )

    -- A file that is laid out like this without a CODE section ends the load in the fatal error.
    pub custom_caml_load_code-no_code :
        (files : Bytes → Option Bytes) (path junk : Bytes) (ss : List Section)
        → files path ≡ some (write junk ss)
        → AllNamed ss
        → length (write junk ss) < 2 ^ 31
        → first_section (codes "CODE") (reverse ss) ≡ none
        → custom_caml_load_code granted fatal src caml_input_val files path
          ≡ caml_fatal_error_arg fatal (codes "Fatal_error: section `%s' is missing\n")
    unfolding custom_caml_load_code load_sections
    custom_caml_load_code-no_code files path junk ss there named small lacks =
        let (fd, fd1, trail, toc, open_ok, toc_ok, file1, is) =
          open_sections granted fatal all files path junk ss there named small in
        let lacking =
          caml_seek_section-lacking granted fatal all (codes "CODE") junk ss fd1 toc is file1
            lacks in
        rw (open_ok, toc_ok, lacking) (>>=-fatal_error _ fatal _)
