-- ===== src/Runtime/Interp/Methods.antt =====
-- The instruction GETDYNMET of ocaml/byterun/interp.c, which looks a method up by its tag: a binary
-- search over the tags of the method table, which has the number of its last tag in its first field
-- and then, in order of the tags, each method before its tag.
use multi_script.Prelude.{
  ℕ, zero, suc, ◌+◌, ◌-◌, ◌*◌, ◌/◌, ◌^◌, Bool, true, false, List, get_elem?, ltb,
}
use multi_script.Outcome.{Outcome, ok, stop, no_fuel, require, ◌>>=◌, ◌>>◌}
use multi_script.Interface.Shared.{deref}
use multi_script.Ocaml.Words.{Word}
use multi_script.Runtime.Interp.{Machine, field, signed_lt}

-- `((li + hi) >> 1) | 1`
abbrev pub middle : ℕ → ℕ → ℕ
middle li hi = (li + hi) / 2 / 2 * 2 + 1

-- The bounds after a round of the loop, by the answer to `accu < Field(meths, mi)`.
abbrev pub narrowed : Bool → ℕ → ℕ → ℕ × ℕ
narrowed true li hi = (li, middle li hi - 2)
narrowed false li hi = (middle li hi, hi)

-- The loop `while (li < hi)`, on fuel; the sum of two `int`s must not overflow.
unfoldable pub find_tag : ℕ → Word → List Word → ℕ → ℕ → Outcome ℕ
find_tag zero tag meths li hi = stop no_fuel
find_tag (suc fuel) tag meths li hi = elim (signed_lt li hi) [
  | false ↦ ok li
  | true ↦ (do
    require (ltb (li + hi) (2 ^ 31))
    w ← deref (get_elem? meths (middle li hi))
    let (li', hi') = narrowed (signed_lt tag w) li hi
    find_tag fuel tag meths li' hi')
]

-- The fuel is the number in the first field of the table, and one more for the last test.
unfoldable pub getdynmet : Machine → Outcome Machine
unfolding find_tag field
getdynmet m = do
  obj ← deref (get_elem? m.sp 0)
  meths ← field 0 obj m
  b ← deref (m.heap meths)
  hi ← deref (get_elem? b.fields 0)
  li ← find_tag (suc hi) m.accu b.fields 3 hi
  method ← deref (get_elem? b.fields (li - 1))
  ok (record m { accu = method })
