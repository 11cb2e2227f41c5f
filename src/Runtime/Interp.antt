-- ===== src/Runtime/Interp.antt =====
-- ocaml/byterun/interp.c: the machine of `caml_interprete`, its stack instructions and the
-- application of functions. The instructions are those of instruct.h from ACC0 to GRAB.
pub mod Steps
pub mod Application
pub mod Currying
pub mod Traps
pub mod Handlers
pub mod Integers
pub mod Arith
pub mod CCalls
pub mod Reentry
pub mod Methods
pub mod MethodSearch
pub mod Division
use multi_script.Prelude.{
  ℕ, zero, suc, ◌+◌, ◌-◌, ◌%◌, ◌^◌, Bool, Option, some, List, [], ◌∷◌, ◌++◌, length, drop,
  get_elem?, set, ltb, leb, ◌==◌, if◌then◌else◌,
}
use multi_script.Outcome.{Outcome, ok, stop, undefined, require, ◌>>=◌, ◌>>◌}
use multi_script.Interface.Program.{CInt}
use multi_script.Interface.Shared.{deref}
use multi_script.Ocaml.Words.{Word, val_int, int_val, val_unit}

-- A block of the heap: its tag and its fields.
pub record Block : Type 0 where
  pub tag : ℕ
  pub fields : List Word

-- The registers, and the memory that they lead to. A `code_t` is the position of its word in the
-- program, and the same number when it is cast to a `value`. `sp` has the words from the stack
-- pointer to `caml_stack_high`; `caml_trapsp` is the number of words above it.
pub record Machine : Type 0 where
  pub pc : ℕ
  pub sp : List Word
  pub accu : Word
  pub env : Word
  pub extra_args : CInt
  pub trapsp : ℕ
  pub heap : Word → Option Block

-- `Closure_tag`
abbrev pub closure_tag : ℕ
closure_tag = 247

-- What GRAB makes of too few arguments.
abbrev pub partial_closure : ℕ → Word → List Word → Block
partial_closure restart_pc env args = record { tag = closure_tag; fields = restart_pc ∷ env ∷ args }

-- The heap with a block put at this address.
abbrev pub with_block : Word → Block → (Word → Option Block) → Word → Option Block
with_block p b heap v = if v == p then some b else heap v

-- The comparison `<` of two signed words.
abbrev pub signed_lt : CInt → CInt → Bool
signed_lt a b = ltb ((a + 2 ^ 31) % 2 ^ 32) ((b + 2 ^ 31) % 2 ^ 32)

-- `pc + n`, for a signed `n`
abbrev pub jump : ℕ → CInt → ℕ
jump pc n = (pc + n) % 2 ^ 32

-- The `n` words from the stack pointer on, and the stack above them.
abbrev pub first : ℕ → List Word → Outcome (List Word × List Word)
first zero ws = ok ([], ws)
first (suc n) [] = stop undefined
first (suc n) (w ∷ ws) = do (front, above) ← first n ws; ok (w ∷ front, above)

-- `Field(v, i)`
unfoldable pub field : ℕ → Word → Machine → Outcome Word
field i v m = do b ← deref (m.heap v); deref (get_elem? b.fields i)

unfoldable pub acc : ℕ → Machine → Outcome Machine
acc n m = do w ← deref (get_elem? m.sp n); ok (record m { accu = w })

unfoldable pub push : Machine → Machine
push m = record m { sp = m.accu ∷ m.sp }

unfoldable pub pushacc : ℕ → Machine → Outcome Machine
unfolding push acc
pushacc n m = acc n (push m)

unfoldable pub envacc : ℕ → Machine → Outcome Machine
unfolding field
envacc n m = do w ← field n m.env m; ok (record m { accu = w })

unfoldable pub pushenvacc : ℕ → Machine → Outcome Machine
unfolding push envacc
pushenvacc n m = envacc n (push m)

-- `pc = Code_val(accu); env = accu`, before the checks for stack room and signals.
unfoldable pub enter : Machine → Outcome Machine
unfolding field
enter m = do code ← field 0 m.accu m; ok (record m { pc = code; env = m.accu })

-- The three words of a return frame.
abbrev pub frame : ℕ → Word → CInt → List Word
frame pc env extra_args = pc ∷ env ∷ val_int extra_args ∷ []

-- APPLY1, APPLY2 and APPLY3, by the number of extra arguments.
unfoldable pub apply_few : ℕ → Machine → Outcome Machine
unfolding enter
apply_few extra m = do
  (args, above) ← first (suc extra) m.sp
  m' ← enter (record m { sp = args ++ (frame m.pc m.env m.extra_args ++ above) })
  ok (record m' { extra_args = extra })

-- `pc = (code_t)(sp[0]); env = sp[1]; extra_args = Long_val(sp[2]); sp += 3`
unfoldable pub leave : Machine → Outcome Machine
unfolding int_val
leave m = do
  (_, above) ← first 3 m.sp
  pc ← deref (get_elem? m.sp 0)
  env ← deref (get_elem? m.sp 1)
  extra ← deref (get_elem? m.sp 2)
  ok (record m { pc = pc; env = env; extra_args = int_val extra; sp = above })

unfoldable pub restart : Machine → Outcome Machine
unfolding field
restart m = do
  b ← deref (m.heap m.env)
  require (leb 2 (length b.fields))
  env ← field 1 m.env m
  let extra = (m.extra_args + (length b.fields - 2)) % 2 ^ 32
  ok (record m { sp = drop 2 b.fields ++ m.sp; env = env; extra_args = extra })

-- Keeps `nargs` words of the `slotsize` of the frame.
unfoldable pub slide : ℕ → ℕ → List Word → Outcome (List Word)
slide nargs slotsize sp = do
  (args, _) ← first nargs sp
  require (leb nargs slotsize)
  (_, above) ← first slotsize sp
  ok (args ++ above)

-- `code` is the program.
module _ (code : ℕ → Option CInt) where
  -- `*pc++`
  unfoldable pub operand : Machine → Outcome (CInt × Machine)
  operand m = do n ← deref (code m.pc); ok (n, record m { pc = suc m.pc })

  unfoldable pub pop : Machine → Outcome Machine
  unfolding operand
  pop m = do (n, m1) ← operand m; (_, above) ← first n m1.sp; ok (record m1 { sp = above })

  unfoldable pub assign : Machine → Outcome Machine
  unfolding operand
  assign m = do
    (n, m1) ← operand m
    require (ltb n (length m1.sp))
    ok (record m1 { sp = set m1.sp n m1.accu; accu = val_unit })

  unfoldable pub push_retaddr : Machine → Outcome Machine
  unfolding operand
  push_retaddr m = do
    (n, m1) ← operand m
    ok (record m1 { sp = frame (jump m.pc n) m.env m.extra_args ++ m.sp })

  unfoldable pub apply : Machine → Outcome Machine
  unfolding operand enter
  apply m = do (n, m1) ← operand m; enter (record m1 { extra_args = (n + 2 ^ 32 - 1) % 2 ^ 32 })

  unfoldable pub appterm : Machine → Outcome Machine
  unfolding operand enter slide
  appterm m = do
    (nargs, m1) ← operand m
    slotsize ← deref (code m1.pc)
    sp ← slide nargs slotsize m1.sp
    m2 ← enter (record m1 { sp = sp })
    ok (record m2 { extra_args = (m2.extra_args + nargs + 2 ^ 32 - 1) % 2 ^ 32 })

  -- APPTERM1, APPTERM2 and APPTERM3, by the number of extra arguments.
  unfoldable pub appterm_few : ℕ → Machine → Outcome Machine
  unfolding enter slide
  appterm_few extra m = do
    slotsize ← deref (code m.pc)
    sp ← slide (suc extra) slotsize m.sp
    m1 ← enter (record m { sp = sp })
    ok (record m1 { extra_args = (m1.extra_args + extra) % 2 ^ 32 })

  unfoldable pub return : Machine → Outcome Machine
  unfolding pop enter leave
  return m = do
    m1 ← pop m
    if signed_lt 0 m1.extra_args
        then enter (record m1 { extra_args = m1.extra_args - 1 })
        else leave m1

-- `place` is where `Alloc_small` puts a block of so many fields.
module _ (code : ℕ → Option CInt) (place : (Word → Option Block) → ℕ → Word) where
  unfoldable pub alloc_small : Block → Machine → Word × Machine
  alloc_small b m =
      let p = place m.heap (length b.fields) in (p, record m { heap = with_block p b m.heap })

  unfoldable pub grab : Machine → Outcome Machine
  unfolding operand alloc_small leave
  grab m = do
    (required, m1) ← operand code m
    if signed_lt m1.extra_args required
        then (do
          (args, above) ← first ((1 + m1.extra_args) % 2 ^ 32) m1.sp
          let restart_pc = jump m1.pc (2 ^ 32 - 3)
          let (closure, m2) = alloc_small (partial_closure restart_pc m1.env args) m1
          leave (record m2 { accu = closure; sp = above }))
        else ok (record m1 { extra_args = (m1.extra_args + 2 ^ 32 - required) % 2 ^ 32 })
