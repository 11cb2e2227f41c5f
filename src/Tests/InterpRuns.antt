-- ===== src/Tests/InterpRuns.antt =====
-- The theorems of the byte-code interpreter at concrete inputs.
use multi_script.Prelude.{
  ℕ, zero, suc, true, ◌+◌, ◌-◌, ◌*◌, ◌%◌, ◌^◌, ◌<◌, ◌≡◌, refl, inl, inr, Option, none, some, List,
  [], ◌∷◌, ◌++◌, get_elem?, if◌then◌else◌, ◌==◌, arith,
}
use multi_script.Outcome.{ok, ◌>>=◌}
use multi_script.Interface.Program.{CInt}
use multi_script.Ocaml.Words.{Word, val_int, int_val, val_unit}
use multi_script.Runtime.Interp.{
  Block, Machine, signed_lt, frame, closure_tag, partial_closure, with_block, push_retaddr, apply,
  apply_few,
}
use multi_script.Runtime.Interp.Steps.{steps}
use multi_script.Runtime.Interp.Application.{apply_few-apply}
use multi_script.Runtime.Interp.Currying.{grab-restart}
use multi_script.Runtime.Interp.Traps.{next, raise, pushtrap, poptrap}
use multi_script.Runtime.Interp.Handlers.{raise-pushtrap}
use multi_script.Runtime.Interp.Integers.{
  negint, addint, subint, mulint, ltint, test, val_bool, integer_comparison,
  integer_branch_comparison, pushconstint, branchif,
}
use multi_script.Runtime.Interp.Arith.{arithmetic-val_int, branch_comparison-comparison}
use multi_script.Runtime.Interp.CCalls.{c_call, caml_callback_n_exn}
use multi_script.Runtime.Interp.Methods.{getdynmet}
use multi_script.Runtime.Interp.MethodSearch.{MethodTable, getdynmet-finds}
use multi_script.Runtime.Interp.Reentry.{c_call-callback}

-- `callback_code` for one argument; C_CALL1 of the primitive 0 at 7, with RETURN after it; a
-- function of three arguments at 11; APPLY to two arguments at 16; and at 20 a function of one
-- argument that returns it.
abbrev words : List CInt
words =
    8 ∷ 4 ∷ 32 ∷ 1 ∷ 19 ∷ 1 ∷ 143 ∷ 93 ∷ 0 ∷ 40 ∷ 1 ∷ 41 ∷ 42 ∷ 2 ∷ 40 ∷ 3 ∷ 32 ∷ 2 ∷ 2 ∷ 1 ∷ 0 ∷ 40
    ∷ 1 ∷ []

abbrev code : ℕ → Option CInt
code i = get_elem? words i

abbrev place : (Word → Option Block) → ℕ → Word
place heap n = 800

-- The closure of the function at 20.
abbrev identity : Block
identity = record { tag = closure_tag; fields = 20 ∷ [] }

abbrev heap : Word → Option Block
heap v = if v == 400 then some identity else none

abbrev at : ℕ → Machine
at pc = record {
  pc = pc;
  sp = 21 ∷ 23 ∷ [];
  accu = 400;
  env = 400;
  extra_args = 0;
  trapsp = 0;
  heap = heap;
}

identity_returns :
    steps code place 2 (record (at 20) {
      sp = 55 ∷ 4 ∷ val_unit ∷ val_int 0 ∷ 400 ∷ 400 ∷ 21 ∷ 23 ∷ [];
      accu = 400;
      env = 400;
      extra_args = 0;
    })
    ≡ ok (some (record (at 4) { sp = 400 ∷ 400 ∷ 21 ∷ 23 ∷ []; accu = 55; env = val_unit }))
unfolding steps int_val val_int
identity_returns = refl

abbrev three : Machine
three = record (at 16) { accu = 800; heap = with_block 800 (partial_closure 11 400 (3 ∷ [])) heap }

apply_few-apply_example :
    push_retaddr code (record (at 20) { pc = 18; sp = 21 ∷ [] })
      >>= (λ m1. apply code (record m1 { pc = 3; sp = (7 ∷ []) ++ m1.sp }))
    ≡ apply_few 0 (record (at 20) { sp = (7 ∷ []) ++ (21 ∷ []) })
apply_few-apply_example =
    apply_few-apply code 0 18 3 2 (7 ∷ []) (21 ∷ []) (at 20) (omega arith) refl refl refl refl

grab-restart_example :
    (steps code place 1
        (record (at 0) { pc = 12; sp = (3 ∷ []) ++ (frame 50 400 0 ++ (21 ∷ [])); extra_args = 0 })
      ≡ ok (
          some (record (at 0) {
            pc = 50;
            sp = 21 ∷ [];
            env = 400;
            extra_args = 0;
            accu = 800;
            heap = with_block 800 (partial_closure 11 400 (3 ∷ [])) heap;
          })))
    × (steps code place 3 (record three { pc = 16; sp = (5 ∷ 7 ∷ []) ++ (21 ∷ []) })
        ≡ ok (
            some (record three {
              pc = 14;
              sp = (3 ∷ []) ++ ((5 ∷ 7 ∷ []) ++ (21 ∷ []));
              env = 400;
              extra_args = 1 + 1 - 2;
            })))
grab-restart_example =
    grab-restart code place 11 16 2 0 1 50 400 0 (3 ∷ []) (5 ∷ 7 ∷ []) (21 ∷ []) (21 ∷ []) (at 0)
      three (omega arith) (inl (omega arith)) refl refl refl refl refl refl refl (omega arith)
      (omega arith) (omega arith) refl

raise-pushtrap_example :
    ((pushtrap code (at 18)
        >>= (λ m1. raise 0 (record three { sp = (9 ∷ 11 ∷ []) ++ m1.sp; trapsp = m1.trapsp })))
      ≡ ok (
          next
            (record three { pc = 20; sp = 21 ∷ 23 ∷ []; env = 400; extra_args = 0; trapsp = 0 })))
    × ((pushtrap code (at 18) >>= (λ m1. poptrap (record three { sp = m1.sp; trapsp = m1.trapsp })))
        ≡ ok (record three { sp = 21 ∷ 23 ∷ []; trapsp = 0 }))
raise-pushtrap_example =
    raise-pushtrap code 0 2 (9 ∷ 11 ∷ []) (at 18) three (inl (omega arith)) (omega arith) refl

arithmetic-val_int_example :
    (negint (record (at 0) { accu = val_int 5; sp = [] })
      ≡ ok (record (at 0) { accu = val_int ((2 ^ 32 - 5) % 2 ^ 32); sp = [] }))
    × (addint (record (at 0) { accu = val_int 5; sp = val_int 4294967293 ∷ [] })
        ≡ ok (record (at 0) { accu = val_int ((5 + 4294967293) % 2 ^ 32); sp = [] }))
    × (subint (record (at 0) { accu = val_int 5; sp = val_int 4294967293 ∷ [] })
        ≡ ok (record (at 0) { accu = val_int ((5 + 2 ^ 32 - 4294967293) % 2 ^ 32); sp = [] }))
    × (mulint (record (at 0) { accu = val_int 5; sp = val_int 4294967293 ∷ [] })
        ≡ ok (record (at 0) { accu = val_int (5 * 4294967293 % 2 ^ 32); sp = [] }))
arithmetic-val_int_example =
    arithmetic-val_int 5 4294967293 [] (at 0) (inl (omega arith)) (inr (omega arith, omega arith))

branch_comparison-comparison_example :
    (integer_branch_comparison code ltint (record (at 0) { pc = 10; accu = val_int 5 })
      ≡ ok (record (at 0) { pc = 52; accu = val_int 5 }))
    × ((pushconstint code (record (at 0) { pc = 19; accu = val_int 5 })
          >>= integer_comparison ltint
          >>= (λ m1. branchif code (record m1 { pc = 18 })))
        ≡ ok (record (at 0) { pc = 20; accu = val_bool (test ltint 1 5) }))
unfolding test
branch_comparison-comparison_example =
    branch_comparison-comparison code ltint 1 41 2 5 10 19 18 (at 0) (inl (omega arith))
      (inl (omega arith)) refl refl refl refl

c_call-callback_example :
    c_call code (λ n ws m'. caml_callback_n_exn 0 1 code place 5 400 (55 ∷ []) m') 0 (at 8)
    ≡ ok (record (at 8) { pc = 8; accu = 55 })
c_call-callback_example =
    c_call-callback code place 0 20 2 0 1 400 0 (55 ∷ []) identity (at 8)
      (record (at 8) { accu = 55; env = val_unit }) refl (omega arith)
      (refl, refl, refl, refl, refl, refl, refl) refl refl refl identity_returns

-- A method table with the tags -9 and 13.
abbrev meths : List Word
meths = 5 ∷ 0 ∷ 71 ∷ 4294967287 ∷ 73 ∷ 13 ∷ []

abbrev tag_of : ℕ → Word
tag_of zero = 4294967287
tag_of (suc i) = 13

abbrev method_of : ℕ → Word
method_of zero = 71
method_of (suc i) = 73

meths-methods : (i : ℕ) → i < 2 → get_elem? meths (i * 2 + 2) ≡ some (method_of i)
meths-methods zero h = refl
meths-methods (suc zero) h = refl
meths-methods (suc (suc i)) h = absurd (omega arith)

meths-tags : (i : ℕ) → i < 2 → get_elem? meths (i * 2 + 3) ≡ some (tag_of i)
meths-tags zero h = refl
meths-tags (suc zero) h = refl
meths-tags (suc (suc i)) h = absurd (omega arith)

meths-increasing : (i j : ℕ) → i < j → j < 2 → signed_lt (tag_of i) (tag_of j) ≡ true
meths-increasing zero (suc zero) h k = refl
meths-increasing i zero h k = absurd (omega arith)
meths-increasing (suc i) (suc zero) h k = absurd (omega arith)
meths-increasing i (suc (suc j)) h k = absurd (omega arith)

meths-MethodTable : MethodTable meths 2 tag_of method_of
meths-MethodTable = record {
  last = refl;
  methods = meths-methods;
  tags = meths-tags;
  increasing = meths-increasing;
  bounded = omega arith;
}

abbrev with_object : Machine
with_object = record (at 0) {
  heap = λ (v : Word).
      if v == 600
      then some (record { tag = 0; fields = meths })
      else if v == 500
      then some (record { tag = 248; fields = 600 ∷ [] })
      else none;
}

getdynmet-finds_example :
    getdynmet (record with_object { sp = 500 ∷ []; accu = 13 })
    ≡ ok (record with_object { sp = 500 ∷ []; accu = 73 })
getdynmet-finds_example =
    getdynmet-finds meths 2 tag_of method_of meths-MethodTable 1 500 600 []
      (record { tag = 248; fields = 600 ∷ [] }) 0 with_object (omega arith) refl refl refl
