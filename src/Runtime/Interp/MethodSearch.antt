-- ===== src/Runtime/Interp/MethodSearch.antt =====
-- The search of GETDYNMET in ocaml/byterun/interp.c finds the method.
use multi_script.Prelude.{
  ℕ, zero, suc, ◌+◌, ◌-◌, ◌*◌, ◌/◌, ◌^◌, ◌≤◌, ◌<◌, ◌≡◌, inl, inr, true, false, refl, sym, some,
  List, ◌∷◌, get_elem?, ltb, Bool-cases, ltb→lt, arith,
}
use multi_script.Outcome.{ok}
use multi_script.Ocaml.Words.{Word}
use multi_script.Runtime.Interp.{Block, Machine, field, signed_lt}
use multi_script.Runtime.Interp.Methods.{middle, narrowed, find_tag, getdynmet}

-- A table of `count` methods, with their tags, in increasing order as signed words.
pub record MethodTable (meths : List Word) (count : ℕ) (tag method : ℕ → Word) : Type 0 where
  pub last : get_elem? meths 0 ≡ some (count * 2 + 1)
  pub methods : (i : ℕ) → i < count → get_elem? meths (i * 2 + 2) ≡ some (method i)
  pub tags : (i : ℕ) → i < count → get_elem? meths (i * 2 + 3) ≡ some (tag i)
  pub increasing : (i j : ℕ) → i < j → j < count → signed_lt (tag i) (tag j) ≡ true
  pub bounded : count < 2 ^ 28

asymmetric : (a b : Word) → signed_lt a b ≡ true → signed_lt b a ≡ false
asymmetric a b h = ground arith

irreflexive : (a : Word) → signed_lt a a ≡ false
irreflexive a = ground arith

middle-odd : (a c : ℕ) → middle (a * 2 + 3) (c * 2 + 3) ≡ (a + c + 1) / 2 * 2 + 3
middle-odd a c = omega arith

not_less : (k b : ℕ) → ltb k b ≡ false → b ≤ k
not_less k b h = ground arith

module _ (meths : List Word) (count : ℕ) (tag method : ℕ → Word)
    (table : MethodTable meths count tag method) where
  open table use {last, methods, tags, increasing, bounded}

  -- A method at or after position `b` has a tag that is not less.
  after_tag : (b k : ℕ) → b ≤ k → k < count → signed_lt (tag k) (tag b) ≡ false
  after_tag b k le small = elim (Bool-cases (ltb b k)) [
    | inl lt ↦ asymmetric (tag b) (tag k) (increasing b k (ltb→lt b k lt) small)
    | inr ge ↦ let same : k ≡ b = omega (arith, not_less b k ge) in rw (same) (irreflexive (tag b))
  ]

  -- One round, with `b` the position of the middle.
  round :
      (fuel a c k b : ℕ)
      → a < c
      → c < count
      → b ≡ (a + c + 1) / 2
      → find_tag (suc fuel) (tag k) meths (a * 2 + 3) (c * 2 + 3) ≡ (
          let bounds = narrowed (signed_lt (tag k) (tag b)) (a * 2 + 3) (c * 2 + 3) in
          find_tag fuel (tag k) meths bounds.0 bounds.1)
  unfolding find_tag
  round fuel a c k b lt small is_middle =
      let large = bounded in
      let less : signed_lt (a * 2 + 3) (c * 2 + 3) ≡ true = ground arith in
      let fits : ltb (a * 2 + 3 + (c * 2 + 3)) (2 ^ 31) ≡ true = ground arith in
      let at_middle : get_elem? meths (middle (a * 2 + 3) (c * 2 + 3)) ≡ some (tag b) =
        rw (middle-odd a c, sym is_middle) (tags b (omega arith)) in
      rw (find_tag, less, fits, at_middle)

  -- With no more than one position left, the loop ends.
  ends : (fuel k : ℕ) → find_tag (suc fuel) (tag k) meths (k * 2 + 3) (k * 2 + 3) ≡ ok (k * 2 + 3)
  unfolding find_tag
  ends fuel k = let done = irreflexive (k * 2 + 3) in rw (find_tag, done)

  -- Between `a` and `c` there is the method, and fuel is enough for the positions between them.
  find_tag-finds :
      (fuel a c k : ℕ)
      → a ≤ k
      → k ≤ c
      → c < count
      → c < a + fuel
      → find_tag fuel (tag k) meths (a * 2 + 3) (c * 2 + 3) ≡ ok (k * 2 + 3)
  find_tag-finds zero a c k low high small enough = absurd (omega arith)
  find_tag-finds (suc fuel) a c k low high small enough = elim (Bool-cases (ltb a c)) [
    | inl more ↦
        let lt = ltb→lt a c more in
        let b = (a + c + 1) / 2 in
        let step = round fuel a c k b lt small refl in
        elim (Bool-cases (ltb k b)) [
          | inl before ↦
              let earlier = ltb→lt k b before in
              let less = increasing k b earlier (omega arith) in
              let upper : (a + c + 1) / 2 * 2 + 3 - 2 ≡ (b - 1) * 2 + 3 = omega arith in
              rw (step, less, middle-odd a c, upper)
                (find_tag-finds fuel a (b - 1) k low (omega arith) (omega arith) (omega arith))
          | inr behind ↦
              let later = not_less k b behind in
              let not_less_tag = after_tag b k later (omega arith) in
              rw (step, not_less_tag, middle-odd a c)
                (find_tag-finds fuel b c k later high small (omega arith))
        ]
    | inr none_left ↦
        let order = not_less a c none_left in
        let at_a : a ≡ k = omega arith in
        let at_c : c ≡ k = omega arith in rw (at_a, at_c) (ends fuel k)
  ]

  -- With the tag of the method at `k` in the accumulator, an object on the top of the stack and the
  -- method table in the first field of the object, GETDYNMET puts that method into the accumulator,
  -- and changes nothing else; its search ends.
  pub getdynmet-finds :
      (k : ℕ) (obj at_meths : Word) (above : List Word) (object : Block) (table_tag : ℕ)
      (m : Machine)
      → k < count
      → m.heap obj ≡ some object
      → get_elem? object.fields 0 ≡ some at_meths
      → m.heap at_meths ≡ some (record { tag = table_tag; fields = meths })
      → getdynmet (record m { sp = obj ∷ above; accu = tag k })
        ≡ ok (record m { sp = obj ∷ above; accu = method k })
  unfolding getdynmet field
  getdynmet-finds k obj at_meths above object table_tag m small is_object first_field is_table =
      let top : count * 2 + 1 ≡ (count - 1) * 2 + 3 = omega arith in
      let found =
        find_tag-finds (suc ((count - 1) * 2 + 3)) 0 (count - 1) k (omega arith) (omega arith)
          (omega arith) (omega arith) in
      let before : k * 2 + 3 - 1 ≡ k * 2 + 2 = omega arith in
      rw (is_object, first_field, is_table, last, top, found, before, methods k small)
