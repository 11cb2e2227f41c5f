-- ===== src/Runtime/Interp/Handlers.antt =====
-- The handler that an exception of ocaml/byterun/interp.c reaches.
use multi_script.Prelude.{
  ℕ, ◌+◌, ◌-◌, ◌≤◌, ◌≡◌, true, false, Option, some, List, ◌++◌, length, leb, arith, length-append,
  drop-append,
}
use multi_script.Outcome.{ok, ◌>>=◌}
use multi_script.Interface.Program.{CInt}
use multi_script.Ocaml.Words.{Word, Fits, int_val-val_int}
use multi_script.Runtime.Interp.{Machine, jump, operand}
use multi_script.Runtime.Interp.Traps.{next, trap_frame, open_frame, raise, poptrap, pushtrap}

module _ (code : ℕ → Option CInt) where
  -- While the trap frame of a PUSHTRAP is the innermost one, whatever has been pushed and whatever the
  -- other registers have become, an exception continues at the handler that PUSHTRAP named, with the
  -- stack, the environment, the extra arguments and the enclosing trap frame of the PUSHTRAP, and with
  -- the exception in the accumulator. POPTRAP, with nothing pushed on the frame, restores the stack
  -- and the enclosing trap frame as well, and goes on.
  pub raise-pushtrap :
      (initial : ℕ) (d : CInt) (ws : List Word) (m m' : Machine)
      → Fits m.extra_args
      → initial ≤ length m.sp
      → code m.pc ≡ some d
      → ((pushtrap code m
            >>= (λ m1. raise initial (record m' { sp = ws ++ m1.sp; trapsp = m1.trapsp })))
          ≡ ok (
              next (record m' {
                pc = jump m.pc d;
                sp = m.sp;
                env = m.env;
                extra_args = m.extra_args;
                trapsp = m.trapsp;
              })))
        × ((pushtrap code m >>= (λ m1. poptrap (record m' { sp = m1.sp; trapsp = m1.trapsp })))
            ≡ ok (record m' { sp = m.sp; trapsp = m.trapsp }))
  unfolding raise pushtrap poptrap operand open_frame
  raise-pushtrap initial d ws m m' fits inner there =
      let frame = trap_frame (jump m.pc d) m.trapsp m.env m.extra_args ++ m.sp in
      let caught : leb (length frame) initial ≡ false = ground arith in
      let below : leb (length frame) (length ws + length frame) ≡ true = ground arith in
      let above : length ws + length frame - length frame ≡ length ws = omega arith in
      (
        rw (
          there,
          caught,
          length-append ws frame,
          below,
          above,
          drop-append ws frame,
          int_val-val_int m.extra_args fits,
        ),
        rw (there),
      )
