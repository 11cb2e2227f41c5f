-- ===== src/Runtime/Fatal.antt =====
-- `caml_fatal_error` and its variants, ocaml/byterun/misc.c: the handler that the embedding program
-- may install runs first, and the process then ends with status 2.
use multi_script.Prelude.{Option, none, some, Bytes, ◌≡◌, refl}
use multi_script.Outcome.{Outcome, ok, stop, exited, ◌>>=◌, ◌>>◌}

-- `custom_ocaml_fatal_error_func`
abbrev pub FatalErrorFunc : Type 0
FatalErrorFunc = Option (Bytes → Outcome (Unit {0}))

unfoldable pub custom_ocaml_set_fatal_error_func :
    (Bytes → Outcome (Unit {0})) → FatalErrorFunc → FatalErrorFunc
custom_ocaml_set_fatal_error_func func old = some func

unfoldable pub caml_fatal_error_arg : {A : Type 0} → FatalErrorFunc → Bytes → Outcome A
caml_fatal_error_arg none fmt = stop (exited 2)
caml_fatal_error_arg (some func) fmt = func fmt >> stop (exited 2)

module _ {A B : Type 0} (next : A → Outcome B) where
  ended : (o : Outcome (Unit {0})) → ((o >> stop (exited 2)) >>= next) ≡ (o >> stop (exited 2))
  ended (ok u) = refl
  ended (stop s) = refl

  -- Nothing follows a fatal error.
  pub >>=-fatal_error :
      (fatal : FatalErrorFunc) (fmt : Bytes)
      → (caml_fatal_error_arg fatal fmt >>= next) ≡ caml_fatal_error_arg fatal fmt
  unfolding caml_fatal_error_arg
  >>=-fatal_error none fmt = refl
  >>=-fatal_error (some func) fmt = ended (func fmt)
