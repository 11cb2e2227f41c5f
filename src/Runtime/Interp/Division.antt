-- ===== src/Runtime/Interp/Division.antt =====
-- Division in ocaml/byterun/interp.c, and its exception.
use multi_script.Prelude.{ℕ, ◌≤◌, ◌≡◌, Option, some, List, ◌∷◌, ◌++◌, length}
use multi_script.Outcome.{ok, ◌>>=◌}
use multi_script.Interface.Program.{CInt}
use multi_script.Ocaml.Words.{Word, val_int, int_val, Fits}
use multi_script.Runtime.Interp.{Machine, jump}
use multi_script.Runtime.Interp.Traps.{next, pushtrap}
use multi_script.Runtime.Interp.Handlers.{raise-pushtrap}
use multi_script.Runtime.Interp.Integers.{division}

-- A division by 0, while the trap frame of a PUSHTRAP is the innermost one, continues at the handler
-- that PUSHTRAP named, with its stack, environment, extra arguments and enclosing trap frame, and with
-- the exception for divisions by 0 in the accumulator.
pub division-zero :
    (code : ℕ → Option CInt) (operation : CInt → CInt → CInt) (exn : Word) (initial : ℕ) (d : CInt)
    (ws : List Word) (m m' : Machine)
    → Fits m.extra_args
    → initial ≤ length m.sp
    → code m.pc ≡ some d
    → (pushtrap code m >>= (λ m1.
        division operation exn initial
          (record m' { sp = val_int 0 ∷ (ws ++ m1.sp); trapsp = m1.trapsp })))
      ≡ ok (
          next (record m' {
            pc = jump m.pc d;
            sp = m.sp;
            accu = exn;
            env = m.env;
            extra_args = m.extra_args;
            trapsp = m.trapsp;
          }))
unfolding division int_val val_int
division-zero code operation exn initial d ws m m' fits inner there =
    (raise-pushtrap code initial d (m'.env ∷ ws) m (record m' { accu = exn }) fits inner there).0
