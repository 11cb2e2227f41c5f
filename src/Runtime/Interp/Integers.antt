-- ===== src/Runtime/Interp/Integers.antt =====
-- The integer and branch instructions of ocaml/byterun/interp.c, but for those on bits and shifts.
use multi_script.Prelude.{
  ℕ, suc, ◌+◌, ◌-◌, ◌*◌, ◌/◌, ◌%◌, ◌^◌, Bool, true, false, not, Option, List, [], ◌∷◌, leb, ltb,
  ◌==◌, if◌then◌else◌,
}
use multi_script.Outcome.{Outcome, ok, stop, undefined, ◌>>=◌}
use multi_script.Interface.Program.{CInt}
use multi_script.Ocaml.Words.{Word, val_int, int_val}
use multi_script.Runtime.Interp.{Machine, push, signed_lt, jump, operand}
use multi_script.Runtime.Interp.Traps.{Round, next, raise}

-- `*sp++`
abbrev pub top : List Word → Outcome (Word × List Word)
top [] = stop undefined
top (w ∷ ws) = ok (w, ws)

-- `accu = f(accu, *sp++)`
unfoldable pub binary : (Word → Word → Word) → Machine → Outcome Machine
binary f m = do (w, above) ← top m.sp; ok (record m { accu = f m.accu w; sp = above })

unfoldable pub negint : Machine → Outcome Machine
negint m = ok (record m { accu = (2 + 2 ^ 32 - m.accu) % 2 ^ 32 })

unfoldable pub addint : Machine → Outcome Machine
unfolding binary
addint m = binary (λ (a b : Word). (a + b + 2 ^ 32 - 1) % 2 ^ 32) m

unfoldable pub subint : Machine → Outcome Machine
unfolding binary
subint m = binary (λ (a b : Word). (a + 2 ^ 32 - b + 1) % 2 ^ 32) m

unfoldable pub mulint : Machine → Outcome Machine
unfolding binary
mulint m = binary (λ (a b : Word). val_int (int_val a * int_val b % 2 ^ 32)) m

-- The absolute value of a signed word, and a word by its sign and absolute value.
abbrev pub magnitude : CInt → ℕ
magnitude x = if ltb x (2 ^ 31) then x else 2 ^ 32 - x

abbrev pub with_sign : Bool → ℕ → CInt
with_sign true n = (2 ^ 32 - n) % 2 ^ 32
with_sign false n = n

abbrev pub negative : CInt → Bool
negative x = leb (2 ^ 31) x

abbrev pub differ : Bool → Bool → Bool
differ true b = not b
differ false b = b

-- `a / b` and `a % b` on signed words, which round to zero.
unfoldable pub quotient : CInt → CInt → CInt
quotient a b = with_sign (differ (negative a) (negative b)) (magnitude a / magnitude b)

unfoldable pub remainder : CInt → CInt → CInt
remainder a b = with_sign (negative a) (magnitude a % magnitude b)

-- DIVINT and MODINT, by the operation; `zero_divide` is the exception of `caml_raise_zero_divide`.
unfoldable pub division : (CInt → CInt → CInt) → Word → ℕ → Machine → Outcome Round
unfolding int_val val_int raise
division operation zero_divide initial m = do
  (w, above) ← top m.sp
  let divisor = int_val w
  if divisor == 0
      then raise initial (record m { sp = m.env ∷ above; accu = zero_divide })
      else ok (next (record m { accu = val_int (operation (int_val m.accu) divisor); sp = above }))

-- The tests of the two macros for comparisons, with the type that they are made at.
pub data Test : Type 0 where
  eq neq ltint leint gtint geint ultint ugeint : Test

unfoldable pub test : Test → CInt → CInt → Bool
test eq a b = a == b
test neq a b = not (a == b)
test ltint a b = signed_lt a b
test leint a b = not (signed_lt b a)
test gtint a b = signed_lt b a
test geint a b = not (signed_lt a b)
test ultint a b = ltb a b
test ugeint a b = leb b a

-- `Val_int(b)`
abbrev pub val_bool : Bool → Word
val_bool true = 3
val_bool false = 1

-- `Integer_comparison(typ,opname,tst)`
unfoldable pub integer_comparison : Test → Machine → Outcome Machine
unfolding binary test
integer_comparison t m = binary (λ (a b : Word). val_bool (test t a b)) m

unfoldable pub boolnot : Machine → Outcome Machine
boolnot m = ok (record m { accu = (4 + 2 ^ 32 - m.accu) % 2 ^ 32 })

module _ (code : ℕ → Option CInt) where
  unfoldable pub constint : Machine → Outcome Machine
  unfolding operand val_int
  constint m = do (n, m1) ← operand code m; ok (record m1 { accu = val_int n })

  unfoldable pub pushconstint : Machine → Outcome Machine
  unfolding push constint
  pushconstint m = constint (push m)

  unfoldable pub branch : Machine → Outcome Machine
  unfolding operand
  branch m = do (n, _) ← operand code m; ok (record m { pc = jump m.pc n })

  -- `pc += *pc` if the condition holds, and `pc++` otherwise
  unfoldable pub branch_if : Bool → Machine → Outcome Machine
  unfolding branch
  branch_if true m = branch m
  branch_if false m = ok (record m { pc = suc m.pc })

  unfoldable pub branchif : Machine → Outcome Machine
  unfolding branch_if
  branchif m = branch_if (not (m.accu == val_bool false)) m

  unfoldable pub branchifnot : Machine → Outcome Machine
  unfolding branch_if
  branchifnot m = branch_if (m.accu == val_bool false) m

  -- `Integer_branch_comparison(typ,opname,tst,debug)`
  unfoldable pub integer_branch_comparison : Test → Machine → Outcome Machine
  unfolding operand branch_if test int_val
  integer_branch_comparison t m = do
    (n, m1) ← operand code m
    branch_if (test t n (int_val m.accu)) m1

  unfoldable pub offsetint : Machine → Outcome Machine
  unfolding operand
  offsetint m = do (n, m1) ← operand code m; ok (record m1 { accu = (m.accu + n * 2) % 2 ^ 32 })
