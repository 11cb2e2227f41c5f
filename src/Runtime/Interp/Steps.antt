-- ===== src/Runtime/Interp/Steps.antt =====
-- ocaml/byterun/interp.c: the dispatch of the instructions of ocaml/byterun/instruct.h from ACC0 to
-- GRAB.
use multi_script.Prelude.{ℕ, zero, suc, Option, none, some, List, [], ◌∷◌, get_elem?}
use multi_script.Outcome.{Outcome, ok, ◌>>=◌}
use multi_script.Interface.Program.{CInt}
use multi_script.Ocaml.Words.{Word}
use multi_script.Runtime.Interp.{
  Block, Machine, acc, push, pushacc, envacc, pushenvacc, apply_few, restart, operand, pop, assign,
  push_retaddr, apply, appterm, appterm_few, return, grab,
}

module _ (code : ℕ → Option CInt) where
  -- An instruction that takes its number from the program.
  unfoldable pub with_operand : (ℕ → Machine → Outcome Machine) → Machine → Outcome Machine
  unfolding operand
  with_operand f m = do (n, m1) ← operand code m; f n m1

module _ (code : ℕ → Option CInt) (place : (Word → Option Block) → ℕ → Word) where
  -- `enum instructions` up to GRAB, by position.
  unfoldable pub instructions : List (Machine → Outcome Machine)
  unfolding acc push pushacc envacc pushenvacc apply_few restart pop assign push_retaddr apply
      appterm appterm_few return grab with_operand
  instructions =
      acc 0
      ∷ acc 1
      ∷ acc 2
      ∷ acc 3
      ∷ acc 4
      ∷ acc 5
      ∷ acc 6
      ∷ acc 7
      ∷ with_operand code acc
      ∷ (λ m. ok (push m))
      ∷ pushacc 0
      ∷ pushacc 1
      ∷ pushacc 2
      ∷ pushacc 3
      ∷ pushacc 4
      ∷ pushacc 5
      ∷ pushacc 6
      ∷ pushacc 7
      ∷ with_operand code pushacc
      ∷ pop code
      ∷ assign code
      ∷ envacc 1
      ∷ envacc 2
      ∷ envacc 3
      ∷ envacc 4
      ∷ with_operand code envacc
      ∷ pushenvacc 1
      ∷ pushenvacc 2
      ∷ pushenvacc 3
      ∷ pushenvacc 4
      ∷ with_operand code pushenvacc
      ∷ push_retaddr code
      ∷ apply code
      ∷ apply_few 0
      ∷ apply_few 1
      ∷ apply_few 2
      ∷ appterm code
      ∷ appterm_few code 0
      ∷ appterm_few code 1
      ∷ appterm_few code 2
      ∷ return code
      ∷ restart
      ∷ grab code place
      ∷ []

  -- One round of the interpreter, or `none` for an instruction after GRAB.
  unfoldable pub step : Machine → Outcome (Option Machine)
  unfolding operand instructions
  step m = do
    (op, m1) ← operand code m
    elim (get_elem? instructions op) [
      | none ↦ ok none
      | some instruction ↦ do m2 ← instruction m1; ok (some m2)
    ]

  -- So many rounds.
  unfoldable pub steps : ℕ → Machine → Outcome (Option Machine)
  unfolding step
  steps zero m = ok (some m)
  steps (suc n) m = do next ← step m; elim next [ none ↦ ok none | some m1 ↦ steps n m1 ]
