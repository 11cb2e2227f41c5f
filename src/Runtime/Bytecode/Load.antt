-- ===== src/Runtime/Bytecode/Load.antt =====
-- ocaml/byterun/custom_startup.c: loading a byte-code file, with `caml_load_code` of fix_code.c, and
-- running what was loaded.
pub mod Loaded
use multi_script.Prelude.{
  ℕ, ◌+◌, Bool, true, false, Option, none, some, List, [], ◌∷◌, Bytes, codes, ◌==◌, if◌then◌else◌,
  length, drop,
}
use multi_script.Outcome.{Outcome, ok, stop, ◌>>=◌, ◌>>◌}
use multi_script.Runtime.ExtTable.{ExtTable}
use multi_script.Runtime.Fatal.{FatalErrorFunc, caml_fatal_error_arg}
use multi_script.Runtime.Dynlink.{Sources, caml_build_primitive_table}
use multi_script.Runtime.Bytecode.{
  Attempt, opened, file_not_found, bad_bytecode, allocate, caml_attempt_open,
  caml_read_section_descriptors, caml_seek_section, read_section,
}
use multi_script.Runtime.Bytecode.File.{Fd, read}

-- `struct caml_code`; the code by its bytes, and `V` is the type of runtime values.
pub record CamlCode (P U V : Type 0) : Type 0 where
  pub start_code : Bytes
  pub code_size : ℕ
  pub global_data : V
  pub prim_table : ExtTable P
  pub prim_table_user_data : ExtTable (Option U)

module _ (granted : ℕ → Bool) (fatal : FatalErrorFunc) where
  -- The code; its digest is for the debugger.
  unfoldable pub caml_load_code : Fd → ℕ → Outcome (Bytes × Fd)
  unfolding read caml_fatal_error_arg
  caml_load_code fd len = do
    allocate granted len
    let (bytes, fd') = read len fd
    if length bytes == len
        then ok (bytes, fd')
        else caml_fatal_error_arg fatal (codes "Fatal error: truncated bytecode file.\n")

  -- `if (req_prims == NULL) caml_fatal_error(…)`
  abbrev pub required : Option Bytes → Outcome Bytes
  required none = caml_fatal_error_arg fatal (codes "Fatal error: no PRIM section\n")
  required (some names) = ok names

  module _ {P U V : Type 0} (src : Sources P U) (caml_input_val : Bytes → Outcome V) where
    -- After the file was opened. `caml_input_val` reads a value from the bytes at the position.
    unfoldable pub load_sections : Attempt → Outcome (ℕ × CamlCode P U V)
    unfolding caml_load_code caml_read_section_descriptors caml_seek_section read_section
        caml_build_primitive_table
    load_sections file_not_found =
        caml_fatal_error_arg fatal (codes "Fatal error: cannot find file %s\n")
    load_sections bad_bytecode =
        caml_fatal_error_arg fatal
          (codes "Fatal error: the file %s is not a bytecode executable file\n")
    load_sections (opened fd trail) = do
      (toc, fd1) ← caml_read_section_descriptors granted fatal fd trail
      (code_size, fd2) ← caml_seek_section granted fatal fd1 toc (codes "CODE")
      (code, fd3) ← caml_load_code fd2 code_size
      (shared_lib_path, fd4) ← read_section granted fatal fd3 toc (codes "DLPT")
      (shared_libs, fd5) ← read_section granted fatal fd4 toc (codes "DLLS")
      (prim_section, fd6) ← read_section granted fatal fd5 toc (codes "PRIM")
      req_prims ← required prim_section
      (prims, datas) ← caml_build_primitive_table granted fatal src req_prims
      (data_size, fd7) ← caml_seek_section granted fatal fd6 toc (codes "DATA")
      data_value ← caml_input_val (drop fd7.position fd7.contents)
      ok (
        1,
        record {
          start_code = code;
          code_size = code_size;
          global_data = data_value;
          prim_table = prims;
          prim_table_user_data = datas;
        },
      )

    unfoldable pub custom_caml_load_code :
        (Bytes → Option Bytes) → Bytes → Outcome (ℕ × CamlCode P U V)
    unfolding load_sections caml_attempt_open
    custom_caml_load_code files path = load_sections (caml_attempt_open files path true)
