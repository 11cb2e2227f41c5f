-- ===== src/Tests/BytecodeRuns.antt =====
-- The theorems on byte-code files at concrete inputs.
use multi_script.Prelude.{
  ℕ, ◌≡◌, refl, true, Option, none, some, List, [], ◌∷◌, ◌++◌, arith, codes, Bytes, reverse,
}
use multi_script.Outcome.{ok}
use multi_script.Runtime.ExtTable.Growth.{IsTable}
use multi_script.Runtime.Dynlink.{lookup_builtin, lookup_shared}
use multi_script.Runtime.Dynlink.Lookup.{resolve}
use multi_script.Runtime.Dynlink.Strings.{encode}
use multi_script.Runtime.Bytecode.{
  ExecTrailer, caml_attempt_open, opened, caml_read_section_descriptors, read_section,
}
use multi_script.Runtime.Bytecode.File.{Fd, strncmp_eq}
use multi_script.Runtime.Bytecode.Layout.{Section, write, first_section}
use multi_script.Runtime.Bytecode.Sections.{terminated, read_section-write}
use multi_script.Runtime.Bytecode.Load.{CamlCode, custom_caml_load_code}
use multi_script.Runtime.Bytecode.Load.Loaded.{custom_caml_load_code-write}
use multi_script.Tests.RuntimeRuns.{granted, sources, my_add_function, sources-IsTable}

abbrev prim_section : Section
prim_section = (codes "PRIM", codes "MyAdd" ++ 0 ∷ [])

-- A file that needs one registered primitive; the second CODE section counts.
abbrev sections : List Section
sections =
    prim_section
    ∷ (codes "CODE", 9 ∷ [])
    ∷ (codes "CODE", 1 ∷ 0 ∷ 0 ∷ 0 ∷ [])
    ∷ (codes "DATA", 77 ∷ [])
    ∷ []

abbrev junk : Bytes
junk = 35 ∷ 33 ∷ []

abbrev files : Bytes → Option Bytes
files path = some (write junk sections)

abbrev codeless : Bytes → Option Bytes
codeless path = some (write junk (prim_section ∷ []))

-- Reads the first byte.
abbrev first_byte : Bytes → ℕ
first_byte [] = 0
first_byte (b ∷ bs) = b

read_section-write_example :
    (fd fd' : Fd) × (trail trail' : ExecTrailer) × (caml_attempt_open files (codes "test") true
      ≡ opened fd trail)
    × (caml_read_section_descriptors granted none fd trail ≡ ok (trail', fd'))
    × ((name : Bytes) (p : ℕ)
        → (fd'' : Fd) × (read_section granted none (record fd' { position = p }) trail' name
            ≡ ok (terminated (first_section name (reverse sections)), fd'')))
read_section-write_example =
    read_section-write granted none (λ n. refl) files (codes "test") junk sections refl
      (refl, (refl, (refl, (refl, tt)))) (unfold write in omega arith)

custom_caml_load_code-write_example :
    (loaded : CamlCode ℕ ℕ ℕ) × (custom_caml_load_code granted none sources
        (λ bs. ok (first_byte bs))
        files
        (codes "test")
      ≡ ok (1, loaded))
    × (loaded.start_code ≡ 1 ∷ 0 ∷ 0 ∷ 0 ∷ [])
    × (loaded.code_size ≡ 4)
    × (loaded.global_data ≡ 77)
    × IsTable loaded.prim_table (500 ∷ [])
    × IsTable loaded.prim_table_user_data (some 900 ∷ [])
custom_caml_load_code-write_example =
    custom_caml_load_code-write granted none (λ n. refl) sources (λ bs. ok (first_byte bs))
      (my_add_function ∷ []) sources-IsTable files (codes "test") junk sections (1 ∷ 0 ∷ 0 ∷ 0 ∷ [])
      (codes "MyAdd" ++ 0 ∷ []) (77 ∷ []) (codes "MyAdd" ∷ []) ((500, some 900) ∷ []) 77 refl
      (refl, (refl, (refl, (refl, tt)))) (unfold write in omega arith)
      (unfold first_section strncmp_eq in refl) (unfold first_section strncmp_eq in refl)
      (unfold encode in refl) (unfold first_section strncmp_eq in refl) (λ back. refl)
      ((λ e. cc, omega arith), tt) (unfold resolve lookup_builtin lookup_shared in (refl, tt))
      (omega arith)
