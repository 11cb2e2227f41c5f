-- ===== src/Runtime/Interp/CCalls.antt =====
-- Calls between ocaml/byterun/interp.c and C: the instructions C_CALL1 to C_CALLN, and
-- `caml_callbackN_exn` of ocaml/byterun/callback.c, which starts the interpreter again. This
-- repository has made `pc`, `sp` and `accu` global variables; `env` and `extra_args` are local.
use multi_script.Prelude.{
  ℕ, suc, ◌+◌, ◌==◌, Option, none, some, List, ◌∷◌, ◌++◌, get_elem?, if◌then◌else◌,
}
use multi_script.Outcome.{Outcome, ok, stop, no_fuel, ◌>>=◌}
use multi_script.Interface.Program.{CInt}
use multi_script.Interface.Shared.{deref}
use multi_script.Ocaml.Words.{Word, val_int, val_unit}
use multi_script.Runtime.Interp.{Block, Machine, frame, first, operand, push}
use multi_script.Runtime.Interp.Steps.{steps}

-- What the C functions of the table do, by position in it: their result, and what they leave of the
-- memory and of the global registers.
abbrev pub Primitives : Type 0
Primitives = ℕ → List Word → Machine → Outcome (Word × Machine)

module _ (code : ℕ → Option CInt) (primitive : Primitives) where
  -- C_CALL1 to C_CALL5, by the number of arguments after the first.
  unfoldable pub c_call : ℕ → Machine → Outcome Machine
  c_call extra m = do
    (args, _) ← first extra m.sp
    n ← deref (code m.pc)
    (result, m1) ← primitive n (m.accu ∷ args) (record m { sp = m.env ∷ m.sp })
    (saved, above) ← first 1 m1.sp
    env ← deref (get_elem? saved 0)
    (_, rest) ← first extra above
    let m2 = record m1 { pc = suc m1.pc; sp = rest; accu = result; env = env }
    ok (record m2 { extra_args = m.extra_args })

  -- C_CALLN
  unfoldable pub c_calln : Machine → Outcome Machine
  unfolding operand push
  c_calln m = do
    (nargs, m1) ← operand code m
    let m2 = push m1
    n ← deref (code m2.pc)
    (args, _) ← first nargs m2.sp
    (result, m3) ← primitive n args (record m2 { sp = m2.env ∷ m2.sp })
    (saved, above) ← first 1 m3.sp
    env ← deref (get_elem? saved 0)
    (_, rest) ← first nargs above
    let m4 = record m3 { pc = suc m3.pc; sp = rest; accu = result; env = env }
    ok (record m4 { extra_args = m.extra_args })

-- `callback_code` begins at `start`; `atom` is `Atom(0)`.
module _ (start : ℕ) (atom : Word) where
  -- The registers with which `caml_interprete` begins on `callback_code`, below the arguments, the
  -- return frame and the closure.
  unfoldable pub callback_entry : Word → List Word → Machine → Machine
  callback_entry closure args m = record m {
    pc = start;
    sp = args ++ (frame (start + 4) val_unit 0 ++ closure ∷ m.sp);
    accu = val_int 0;
    env = atom;
    extra_args = 0;
  }

  -- The call of `caml_interprete` on `callback_code`, whose words for the number of arguments are
  -- written in `code`. It ends at STOP, after as many rounds as the fuel says; an exception that leaves
  -- the callback is no such end.
  unfoldable pub caml_callback_n_exn :
      (ℕ → Option CInt)
      → ((Word → Option Block) → ℕ → Word)
      → ℕ
      → Word
      → List Word
      → Machine
      → Outcome (Word × Machine)
  unfolding steps callback_entry
  caml_callback_n_exn code place fuel closure args m = do
    reached ← steps code place fuel (callback_entry closure args m)
    m1 ← elim reached [ none ↦ stop no_fuel | some m1 ↦ ok m1 ]
    op ← deref (code m1.pc)
    if op == 143 then ok (m1.accu, record m1 { pc = suc m1.pc }) else stop no_fuel
