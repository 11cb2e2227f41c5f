-- ===== src/Runtime/Memory.antt =====
-- ocaml/byterun/memory.c as the growing tables use it: `caml_stat_alloc` and `caml_stat_resize`
-- over `malloc` and `realloc`, on a machine of 32 bits.
use multi_script.Prelude.{
  ℕ, zero, suc, ◌*◌, ◌/◌, ◌%◌, ◌^◌, Bool, Option, none, List, [], ◌∷◌, if◌then◌else◌, replicate,
}
use multi_script.Outcome.{Outcome, ok, stop, out_of_memory}

-- A `void **` block: its cells, `none` where nothing was written yet.
abbrev pub Cells : Type 0 → Type 0
Cells A = List (Option A)

-- `sizeof (void *)`
abbrev pub word_size : ℕ
word_size = 4

-- The bytes that `sizeof (void *) * n` asks for, in `size_t`.
abbrev pub words_bytes : ℕ → ℕ
words_bytes n = word_size * n % 2 ^ 32

-- Copies the old cells into a block of `n` cells, as `realloc` does.
abbrev pub resize_cells : {A : Type 0} → ℕ → Cells A → Cells A
resize_cells zero cs = []
resize_cells (suc n) [] = none ∷ resize_cells n []
resize_cells (suc n) (c ∷ cs) = c ∷ resize_cells n cs

-- `granted` says for which sizes `malloc` and `realloc` return a block.
module _ {A : Type 0} (granted : ℕ → Bool) where
  -- `caml_stat_alloc(sizeof(void *) * n)`
  unfoldable pub stat_alloc : ℕ → Outcome (Cells A)
  stat_alloc n =
      if granted (words_bytes n)
      then ok (replicate (words_bytes n / word_size) none)
      else stop out_of_memory

  -- `caml_stat_resize(blk, sizeof(void *) * n)`
  unfoldable pub stat_resize : Cells A → ℕ → Outcome (Cells A)
  stat_resize cs n =
      if granted (words_bytes n)
      then ok (resize_cells (words_bytes n / word_size) cs)
      else stop out_of_memory
