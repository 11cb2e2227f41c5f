-- ===== src/Runtime/Interp/Traps.antt =====
-- Exceptions in ocaml/byterun/interp.c: trap frames on the stack, and what is done with them when an
-- exception is raised.
use multi_script.Prelude.{
  ℕ, ◌+◌, ◌-◌, ◌*◌, ◌/◌, ◌%◌, Option, List, [], ◌∷◌, ◌++◌, length, drop, get_elem?, leb,
  if◌then◌else◌,
}
use multi_script.Outcome.{Outcome, ok, require, ◌>>=◌, ◌>>◌}
use multi_script.Interface.Program.{CInt}
use multi_script.Interface.Shared.{deref}
use multi_script.Ocaml.Words.{Word, val_int, int_val}
use multi_script.Runtime.Interp.{Machine, jump, first, operand}

-- What a round of the interpreter comes to: the next one, or the end of `caml_interprete`, which
-- returns `Make_exception_result` of an exception that nothing in its program catches.
pub data Round : Type 0 where
  next : Machine → Round
  exception_result : Word → Round

-- `Trap_pc(sp)`, `Trap_link(sp)`, `sp[2]` and `sp[3]`
abbrev pub trap_frame : ℕ → ℕ → Word → CInt → List Word
trap_frame pc link env extra_args = pc ∷ link ∷ env ∷ val_int extra_args ∷ []

-- The words of a trap frame, the stack above it, and what they put into the registers.
unfoldable pub open_frame : Machine → Outcome Machine
unfolding int_val
open_frame m = do
  (_, above) ← first 4 m.sp
  pc ← deref (get_elem? m.sp 0)
  link ← deref (get_elem? m.sp 1)
  env ← deref (get_elem? m.sp 2)
  extra ← deref (get_elem? m.sp 3)
  ok (record m { pc = pc; trapsp = link; env = env; extra_args = int_val extra; sp = above })

-- `initial` is the number of words on the stack when `caml_interprete` is entered.
unfoldable pub raise : ℕ → Machine → Outcome Round
unfolding open_frame
raise initial m =
    if leb m.trapsp initial then ok (exception_result (m.accu / 4 * 4 + 2 + m.accu % 2)) else (do
      require (leb m.trapsp (length m.sp))
      m1 ← open_frame (record m { sp = drop (length m.sp - m.trapsp) m.sp })
      ok (next m1))

-- POPTRAP while no signal is to be processed.
unfoldable pub poptrap : Machine → Outcome Machine
poptrap m = do
  (_, above) ← first 4 m.sp
  link ← deref (get_elem? m.sp 1)
  ok (record m { trapsp = link; sp = above })

module _ (code : ℕ → Option CInt) where
  unfoldable pub pushtrap : Machine → Outcome Machine
  unfolding operand
  pushtrap m = do
    (n, m1) ← operand code m
    let sp = trap_frame (jump m.pc n) m.trapsp m.env m.extra_args ++ m.sp
    ok (record m1 { sp = sp; trapsp = length sp })
