-- ===== src/Runtime/ExtTable.antt =====
-- `struct ext_table` of ocaml/byterun/misc.c: an array of pointers that doubles when it is full.
pub mod Growth
use multi_script.Prelude.{
  ℕ, ◌+◌, ◌*◌, ◌^◌, Bool, Option, none, some, set, length, get_elem?, ltb, if◌then◌else◌,
}
use multi_script.Outcome.{Outcome, ok, stop, undefined, ◌>>=◌, ◌>>◌, require}
use multi_script.Runtime.Memory.{Cells, stat_alloc, stat_resize}

pub record ExtTable (A : Type 0) : Type 0 where
  pub size : ℕ
  pub capacity : ℕ
  pub contents : Cells A

module _ {A : Type 0} (granted : ℕ → Bool) where
  unfoldable pub ext_table_init : ℕ → Outcome (ExtTable A)
  unfolding stat_alloc
  ext_table_init init_capa = do
    cells ← stat_alloc granted init_capa
    ok (record { size = 0; capacity = init_capa; contents = cells })

  -- `tbl->capacity *= 2` on an `int`, whose overflow is undefined, then the resize.
  unfoldable pub grow : ExtTable A → Outcome (ExtTable A)
  unfolding stat_resize
  grow tbl = if ltb tbl.size tbl.capacity then ok tbl else do
    require (ltb (tbl.capacity * 2) (2 ^ 31))
    cells ← stat_resize granted tbl.contents (tbl.capacity * 2)
    ok (record tbl { capacity = tbl.capacity * 2; contents = cells })

  -- The index of the new entry, and the table. The store must fall inside the block.
  unfoldable pub ext_table_add : ExtTable A → A → Outcome (ℕ × ExtTable A)
  unfolding grow
  ext_table_add tbl data_ptr = do
    t ← grow tbl
    require (ltb t.size (length t.contents))
    ok (t.size, record t { contents = set t.contents t.size (some data_ptr); size = t.size + 1 })

-- A load from a cell, undefined where there is none or nothing was written.
abbrev pub load_cell : {A : Type 0} → Option (Option A) → Outcome A
load_cell (some (some a)) = ok a
load_cell (some none) = stop undefined
load_cell none = stop undefined

-- `tbl->contents[i]`: a read outside the block, or of a cell that was never written, is undefined.
unfoldable pub ext_table_get : {A : Type 0} → ExtTable A → ℕ → Outcome A
ext_table_get tbl i = load_cell (get_elem? tbl.contents i)
