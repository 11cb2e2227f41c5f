-- ===== src/Runtime/Interp/Currying.antt =====
-- Functions of several arguments in ocaml/byterun/interp.c, which begin with RESTART and GRAB.
use multi_script.Prelude.{
  ℕ, suc, ◌+◌, ◌-◌, ◌%◌, ◌^◌, ◌≤◌, ◌<◌, ◌≡◌, true, false, Option, some, List, ◌++◌, length, leb,
  arith,
}
use multi_script.Outcome.{ok}
use multi_script.Interface.Program.{CInt}
use multi_script.Ocaml.Words.{Word, Fits, int_val-val_int}
use multi_script.Runtime.Interp.{
  Block, Machine, frame, jump, apply, operand, enter, leave, field, restart, grab, signed_lt,
  partial_closure, with_block, alloc_small,
}
use multi_script.Runtime.Interp.Steps.{instructions, step, steps}
use multi_script.Runtime.Interp.Application.{first-append}

module _ (code : ℕ → Option CInt) (place : (Word → Option Block) → ℕ → Word) where
  grab_few :
      (r required extra pc : ℕ) (env : Word) (e : CInt) (args above : List Word) (m : Machine)
      → Fits e
      → r < 2 ^ 31
      → required < 2 ^ 31
      → extra < required
      → length args ≡ suc extra
      → code (suc (suc r)) ≡ some required
      → let p = place m.heap (suc (suc (length args))) in
        grab code place (record m {
          pc = suc (suc r);
          sp = args ++ (frame pc env e ++ above);
          extra_args = extra;
        })
        ≡ ok (record m {
          pc = pc;
          sp = above;
          accu = p;
          env = env;
          extra_args = e;
          heap = with_block p (partial_closure r m.env args) m.heap;
        })
  unfolding grab operand leave alloc_small
  grab_few r required extra pc env e args above m fits near small few many there =
      let less : signed_lt extra required ≡ true = ground arith in
      let count : (1 + extra) % 2 ^ 32 ≡ length args = omega arith in
      let back : jump (suc (suc (suc r))) (2 ^ 32 - 3) ≡ r = omega arith in
      rw (
        there,
        less,
        count,
        first-append args (frame pc env e ++ above),
        back,
        int_val-val_int e fits,
      )

  grab_enough :
      (required : CInt) (m : Machine)
      → required ≤ m.extra_args
      → m.extra_args < 2 ^ 31
      → code m.pc ≡ some required
      → grab code place m ≡ ok (record m { pc = suc m.pc; extra_args = m.extra_args - required })
  unfolding grab operand
  grab_enough required m enough small there =
      let less : signed_lt m.extra_args required ≡ false = ground arith in
      let left : (m.extra_args + 2 ^ 32 - required) % 2 ^ 32 ≡ m.extra_args - required =
        omega arith in
      rw (there, less, left)

  restarted :
      (r : ℕ) (env : Word) (args : List Word) (m : Machine)
      → m.heap m.env ≡ some (partial_closure r env args)
      → m.extra_args + length args < 2 ^ 32
      → restart m
        ≡ ok (record m { sp = args ++ m.sp; env = env; extra_args = m.extra_args + length args })
  unfolding restart field
  restarted r env args m holds small =
      let there : leb 2 (suc (suc (length args))) ≡ true = ground arith in
      let sum : (m.extra_args + (suc (suc (length args)) - 2)) % 2 ^ 32
          ≡ m.extra_args + length args =
        omega arith in
      rw (holds, there, sum)

  -- A function begins with RESTART and GRAB at `r`. Entered after RESTART with too few arguments, it
  -- returns to its caller a closure, in a new block. When APPLY passes the rest to that closure, and
  -- perhaps more, then three instructions later the function runs after GRAB, with its environment,
  -- all of the arguments on the stack in order, and as many extra ones as are left over. Between the
  -- two, anything may have happened that leaves the block of the closure as it was.
  pub grab-restart :
      (r q required extra more pc : ℕ) (env : Word) (e : CInt) (early late above rest : List Word)
      (m m' : Machine)
      → r < 2 ^ 31
      → Fits e
      → code r ≡ some 41
      → code (suc r) ≡ some 42
      → code (suc (suc r)) ≡ some required
      → code q ≡ some 32
      → code (suc q) ≡ some (suc more)
      → length early ≡ suc extra
      → length late ≡ suc more
      → extra < required
      → required ≤ suc extra + more
      → suc extra + more < 2 ^ 31
      → m'.heap m'.accu ≡ some (partial_closure r m.env early)
      → (steps code place 1
            (record m { pc = suc r; sp = early ++ (frame pc env e ++ above); extra_args = extra })
          ≡ ok (
              some (record m {
                pc = pc;
                sp = above;
                env = env;
                extra_args = e;
                accu = place m.heap (suc (suc (length early)));
                heap =
                    with_block
                      (place m.heap (suc (suc (length early))))
                      (partial_closure r m.env early)
                      m.heap;
              })))
        × (steps code place 3 (record m' { pc = q; sp = late ++ rest })
            ≡ ok (
                some (record m' {
                  pc = suc (suc (suc r));
                  sp = early ++ (late ++ rest);
                  env = m.env;
                  extra_args = suc extra + more - required;
                })))
  unfolding steps step operand instructions apply enter field
  grab-restart r q required extra more pc env e early late above rest m m' near fits is_restart
        is_grab requires is_apply passes many others few enough small kept =
      let some_more : (suc more + 2 ^ 32 - 1) % 2 ^ 32 ≡ more = omega arith in
      let sum : more + length early ≡ suc extra + more = omega arith in
      let fit : more + length early < 2 ^ 32 = omega arith in
      let back =
        restarted r m.env early
          (record m' { pc = suc r; sp = late ++ rest; env = m'.accu; extra_args = more }) kept
          fit in
      let ready : Machine = record m' {
        pc = suc (suc r);
        sp = early ++ (late ++ rest);
        env = m.env;
        extra_args = suc extra + more;
      } in
      let small' : required < 2 ^ 31 = omega arith in
      (
        rw (
          is_grab,
          grab_few r required extra pc env e early above m fits near small' few many requires,
        ),
        rw (
          is_apply,
          passes,
          kept,
          some_more,
          is_restart,
          back,
          sum,
          is_grab,
          grab_enough required ready enough small requires,
        ),
      )
