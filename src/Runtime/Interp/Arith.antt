-- ===== src/Runtime/Interp/Arith.antt =====
-- The integer instructions of ocaml/byterun/interp.c on the words of integers.
use multi_script.Prelude.{
  ℕ, suc, ◌+◌, ◌-◌, ◌*◌, ◌%◌, ◌^◌, ◌<◌, ◌≡◌, refl, Bool, true, false, not, Option, some, List, ◌∷◌,
  ◌==◌, if◌then◌else◌, arith,
}
use multi_script.Outcome.{ok, ◌>>=◌}
use multi_script.Interface.Program.{CInt}
use multi_script.Ocaml.Words.{Word, val_int, Fits, int_val-val_int}
use multi_script.Runtime.Interp.{Machine, push, jump, operand}
use multi_script.Runtime.Interp.Integers.{
  binary, negint, addint, subint, mulint, Test, eq, neq, ltint, leint, gtint, geint, ultint, ugeint,
  test, val_bool, integer_comparison, constint, pushconstint, branch, branch_if, branchif,
  integer_branch_comparison,
}

neg-val_int :
    (a : CInt) → (2 + 2 ^ 32 - val_int a) % 2 ^ 32 ≡ val_int ((2 ^ 32 - a % 2 ^ 32) % 2 ^ 32)
unfolding val_int
neg-val_int a = omega arith

add-val_int :
    (a b : CInt) → (val_int a + val_int b + 2 ^ 32 - 1) % 2 ^ 32 ≡ val_int ((a + b) % 2 ^ 32)
unfolding val_int
add-val_int a b = omega arith

sub-val_int :
    (a b : CInt)
    → b < 2 ^ 32
    → (val_int a + 2 ^ 32 - val_int b + 1) % 2 ^ 32 ≡ val_int ((a + 2 ^ 32 - b) % 2 ^ 32)
unfolding val_int
sub-val_int a b small = omega arith

-- The words of two integers compare as the integers do, signed or not.
test-val_int :
    (t : Test) (a b : CInt) → Fits a → Fits b → test t (val_int a) (val_int b) ≡ test t a b
unfolding test val_int
test-val_int eq a b fa fb = ground arith
test-val_int neq a b fa fb = ground arith
test-val_int ltint a b fa fb = ground arith
test-val_int leint a b fa fb = ground arith
test-val_int gtint a b fa fb = ground arith
test-val_int geint a b fa fb = ground arith
test-val_int ultint a b fa fb = ground arith
test-val_int ugeint a b fa fb = ground arith

-- NEGINT, ADDINT, SUBINT and MULINT on the words of integers of 31 bits give the word of the negated
-- integer, of the sum, the difference and the product, wrapped to 31 bits, and take one word from the
-- stack if they have two arguments.
pub arithmetic-val_int :
    (a b : CInt) (ws : List Word) (m : Machine)
    → Fits a
    → Fits b
    → (negint (record m { accu = val_int a; sp = ws })
        ≡ ok (record m { accu = val_int ((2 ^ 32 - a) % 2 ^ 32); sp = ws }))
      × (addint (record m { accu = val_int a; sp = val_int b ∷ ws })
          ≡ ok (record m { accu = val_int ((a + b) % 2 ^ 32); sp = ws }))
      × (subint (record m { accu = val_int a; sp = val_int b ∷ ws })
          ≡ ok (record m { accu = val_int ((a + 2 ^ 32 - b) % 2 ^ 32); sp = ws }))
      × (mulint (record m { accu = val_int a; sp = val_int b ∷ ws })
          ≡ ok (record m { accu = val_int (a * b % 2 ^ 32); sp = ws }))
unfolding negint addint subint mulint binary
arithmetic-val_int a b ws m fa fb =
    let small_a : a < 2 ^ 32 = ground arith in
    let small_b : b < 2 ^ 32 = ground arith in
    let self : a % 2 ^ 32 ≡ a = omega arith in
    (
      rw (neg-val_int a, self),
      rw (add-val_int a b),
      rw (sub-val_int a b small_b),
      rw (int_val-val_int a fa, int_val-val_int b fb),
    )

module _ (code : ℕ → Option CInt) where
  -- What a branch on a condition comes to.
  branch_if-jump :
      (c : Bool) (d : CInt) (m : Machine)
      → code m.pc ≡ some d
      → branch_if code c m ≡ ok (record m { pc = if c then jump m.pc d else suc m.pc })
  unfolding branch_if branch operand
  branch_if-jump true d m there = rw (there)
  branch_if-jump false d m there = refl

  branchif_condition : (c : Bool) → not (val_bool c == val_bool false) ≡ c
  branchif_condition true = refl
  branchif_condition false = refl

  -- Each of BEQ to BUGEINT, with an integer of 31 bits as operand, branches under the condition under
  -- which the constant, the comparison of the same kind and BRANCHIF do, which is that of the
  -- integers; it leaves the stack and the accumulator as they were.
  pub branch_comparison-comparison :
      (t : Test) (n d d' : CInt) (a : CInt) (p q r : ℕ) (m : Machine)
      → Fits n
      → Fits a
      → code p ≡ some n
      → code (suc p) ≡ some d
      → code q ≡ some n
      → code r ≡ some d'
      → (integer_branch_comparison code t (record m { pc = p; accu = val_int a })
          ≡ ok (record m {
            pc = if test t n a then jump (suc p) d else suc (suc p);
            accu = val_int a;
          }))
        × ((pushconstint code (record m { pc = q; accu = val_int a })
              >>= integer_comparison t
              >>= (λ m1. branchif code (record m1 { pc = r })))
            ≡ ok (record m {
              pc = if test t n a then jump r d' else suc r;
              accu = val_bool (test t n a);
            }))
  unfolding integer_branch_comparison integer_comparison pushconstint constint push operand binary
      branchif
  branch_comparison-comparison t n d d' a p q r m fn fa at_p at_p' at_q at_r = (
    rw (
      at_p,
      int_val-val_int a fa,
      branch_if-jump (test t n a) d (record m { pc = suc p; accu = val_int a }) at_p',
    ),
    rw (
      at_q,
      test-val_int t n a fn fa,
      branchif_condition (test t n a),
      branch_if-jump (test t n a) d' (record m { pc = r; accu = val_bool (test t n a) }) at_r,
    ),
  )
