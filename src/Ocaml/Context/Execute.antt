-- ===== src/Ocaml/Context/Execute.antt =====
-- `ExecuteString` and `RebuildFakeDLL` of multiscript/OcamlScriptContext.cpp.
use multi_script.Prelude.{
  ℕ, Bool, true, false, Option, none, some, List, [], ◌∷◌, ◌++◌, Bytes, codes, ◌==◌, if◌then◌else◌,
  not, ◌≡◌, refl,
}
use multi_script.Outcome.{Outcome, ok, stop, undefined, ◌>>=◌, ◌>>◌, assert}
use multi_script.Interface.Desc.{FunctionDesc}
use multi_script.Ocaml.Context.{OcamlScriptContext}

-- What the file system, the compiler and the runtime do: whether the header, the library and the
-- source file can be opened, the status of `ocamlc` on a source text, and the load and the run of the
-- byte code that it made.
pub record Toolchain (State Code : Type 0) : Type 0 where
  pub open_header : State → Bool
  pub write_header : Bytes → State → State
  pub open_dll : State → Bool
  pub open_source : State → Bool
  pub compile : Bytes → State → ℕ × State
  pub load_code : State → Outcome (Option Code × State)
  pub run_code : Code → State → Outcome (Bool × State)

-- What `fprintf(f, string)` writes: `%%` is one percent sign, and any other directive reads an
-- argument that is not there. The flag says whether a percent sign was just read.
unfoldable pub printed : Bool → Bytes → Outcome Bytes
printed false [] = ok []
printed true [] = stop undefined
printed false (b ∷ bs) = elim (b == 37) [
  | true ↦ printed true bs
  | false ↦ do t ← printed false bs; ok (b ∷ t)
]
printed true (b ∷ bs) = elim (b == 37) [
  | true ↦ do t ← printed false bs; ok (b ∷ t)
  | false ↦ stop undefined
]

-- The lines of the header, one for each registered function.
unfoldable pub header_lines : List FunctionDesc → Bytes
header_lines [] = []
header_lines (d ∷ ds) =
    codes "extern \"C\" __declspec(dllexport) int "
    ++ d.name
    ++ codes "() { return 0; }\n"
    ++ header_lines ds

abbrev pub header_text : List FunctionDesc → Bytes
header_text ds =
    codes "// This is auto-generated file (by OcamlScriptContext)\n"
    ++ codes "// Don't modify manually!\n"
    ++ header_lines ds

module _ {State Code : Type 0} (tools : Toolchain State Code) where
  open tools use {open_header, write_header, open_dll, open_source, compile, load_code, run_code}

  -- `RebuildFakeDLL`
  unfoldable pub rebuild_fake_dll :
      OcamlScriptContext → State → Outcome (OcamlScriptContext × State)
  unfolding header_lines
  rebuild_fake_dll c s = do
    assert (open_header s)
    let text =
        codes "// This is auto-generated file (by OcamlScriptContext)\n"
        ++ codes "// Don't modify manually!\n"
        ++ header_lines c.functions
    ok (record c { dirty_faked_dll = false }, write_header (header_text c.functions) s)

  abbrev pub dll_missing : Bytes
  dll_missing =
      codes "ERROR: Faked Ocaml DLL is not built while it's necessary to run the ocaml scripts. "
      ++ codes "Build FakeOcamlDLL and run this app again (sorry).\n"

  -- The load and the run of the byte code.
  unfoldable pub run_bytecode : State → Outcome (Bool × State)
  run_bytecode s = do
    (loaded, s1) ← load_code s
    elim loaded [ none ↦ ok (false, s1) | some code ↦ run_code code s1 ]

  -- From the temporary source file on.
  unfoldable pub compile_and_run : Bytes → State → Outcome (Bool × State)
  unfolding printed run_bytecode
  compile_and_run string s = if not (open_source s) then ok (false, s) else do
    text ← printed false string
    let (result, s1) = compile text s
    if result == 0 then run_bytecode s1 else ok (false, s1)

  -- The registered functions' library: whether the script can be run.
  unfoldable pub prepare_dll :
      OcamlScriptContext → State → Outcome (Bool × OcamlScriptContext × State)
  unfolding rebuild_fake_dll
  prepare_dll c s = if not c.dirty_faked_dll then ok (true, c, s) else do
    (c1, s1) ← rebuild_fake_dll c s
    if open_dll s1
        then ok (true, c1, s1)
        else ok (
          false,
          (if c1.has_logger then record c1 { log = c1.log ++ dll_missing ∷ [] } else c1),
          s1,
        )

  unfoldable pub execute_string :
      Bytes → OcamlScriptContext → State → Outcome (Bool × OcamlScriptContext × State)
  unfolding prepare_dll compile_and_run
  execute_string string c s = do
    (ready, c1, s1) ← prepare_dll c s
    if not ready
        then ok (false, c1, s1)
        else do (result, s2) ← compile_and_run string s1; ok (result, c1, s2)

  -- When the library is missing, `ExecuteString` of a context with new functions reports it and
  -- returns `false`, but only once: the next call, with no registration in between, compiles and
  -- runs its text without the library.
  pub execute_string_again :
      (first second : Bytes) (c : OcamlScriptContext) (s : State)
      → c.dirty_faked_dll ≡ true
      → c.has_logger ≡ true
      → open_header s ≡ true
      → ((text : Bytes) → open_dll (write_header (header_text c.functions) s) ≡ false)
      → (c' : OcamlScriptContext) × (s' : State) × (execute_string first c s ≡ ok (false, c', s'))
        × (c'.log ≡ c.log ++ dll_missing ∷ [])
        × (execute_string second c' s'
            ≡ (compile_and_run second s' >>= λ (result, s2). ok (result, c', s2)))
  unfolding execute_string prepare_dll rebuild_fake_dll
  execute_string_again first second c s dirty logger header missing = (
    record c { dirty_faked_dll = false; log = c.log ++ dll_missing ∷ [] },
    write_header (header_text c.functions) s,
    rw (dirty, header, missing (header_text c.functions), logger),
    refl,
    refl,
  )
