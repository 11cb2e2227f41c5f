-- ===== src/Runtime/ExtTable/Growth.antt =====
-- The growing table keeps what was added, in order, and never writes outside its block.
use multi_script.Prelude.{
  ℕ, zero, suc, ◌+◌, ◌*◌, ◌/◌, ◌^◌, ◌≤◌, ◌<◌, ◌≡◌, refl, Bool, true, false, Option, none, some,
  List, [], ◌∷◌, ◌++◌, inl, inr, max, arith, set, length, length-set, length-append,
  length-replicate, get_elem?, replicate, ltb, Bool-cases, ltb→lt, lt→ltb,
}
use multi_script.Outcome.{ok, stop, out_of_memory}
use multi_script.Runtime.Memory.{Cells, words_bytes, resize_cells}
use multi_script.Runtime.ExtTable.{ExtTable, ext_table_init, ext_table_add, ext_table_get, grow}

module _ {A : Type 0} where
  -- The first cells of the block hold these entries.
  abbrev pub Holds : Cells A → List A → Type 0
  Holds cs [] = Unit
  Holds [] (x ∷ xs) = ⊥
  Holds (c ∷ cs) (x ∷ xs) = (c ≡ some x) × Holds cs xs

  -- The table stands for the list of its entries.
  pub record IsTable (tbl : ExtTable A) (xs : List A) : Type 0 where
    pub counted : tbl.size ≡ length xs
    pub fits : tbl.size ≤ tbl.capacity
    pub allocated : length tbl.contents ≡ tbl.capacity
    pub nonempty : 0 < tbl.capacity
    pub bounded : tbl.capacity < 2 ^ 30
    pub holds : Holds tbl.contents xs

  length-resize_cells : (n : ℕ) (cs : Cells A) → length (resize_cells n cs) ≡ n
  length-resize_cells zero cs = refl
  length-resize_cells (suc n) [] = omega (arith, length-resize_cells n [])
  length-resize_cells (suc n) (c ∷ cs) = omega (arith, length-resize_cells n cs)

  resize_cells-Holds :
      (n : ℕ) (cs : Cells A) (xs : List A)
      → Holds cs xs
      → length xs ≤ n
      → Holds (resize_cells n cs) xs
  resize_cells-Holds n cs [] h le = tt
  resize_cells-Holds n [] (x ∷ xs) h le = absurd h
  resize_cells-Holds zero (c ∷ cs) (x ∷ xs) h le = absurd (omega arith)
  resize_cells-Holds (suc n) (c ∷ cs) (x ∷ xs) h le =
      (h.0, resize_cells-Holds n cs xs h.1 (omega arith))

  set-Holds :
      (cs : Cells A) (xs : List A) (a : A)
      → Holds cs xs
      → length xs < length cs
      → Holds (set cs (length xs) (some a)) (xs ++ a ∷ [])
  set-Holds [] xs a h lt = elim lt [ ]
  set-Holds (c ∷ cs) [] a h lt = (refl, tt)
  set-Holds (c ∷ cs) (x ∷ xs) a h lt = (h.0, set-Holds cs xs a h.1 (omega arith))

  get_elem?-Holds :
      (cs : Cells A) (xs : List A) (i : ℕ) {a : A}
      → Holds cs xs
      → get_elem? xs i ≡ some a
      → get_elem? cs i ≡ some (some a)
  get_elem?-Holds cs [] i h e = cc
  get_elem?-Holds [] (x ∷ xs) i h e = absurd h
  get_elem?-Holds (c ∷ cs) (x ∷ xs) zero h e = cc (h.0)
  get_elem?-Holds (c ∷ cs) (x ∷ xs) (suc i) h e = get_elem?-Holds cs xs i h.1 e

module _ {A : Type 0} (granted : ℕ → Bool) where
  -- A new table is empty, whatever is added to it later.
  pub ext_table_init-IsTable :
      (n : ℕ)
      → 0 < n
      → n < 2 ^ 30
      → granted (words_bytes n) ≡ true
      → (t : ExtTable A) × (ext_table_init granted n ≡ ok t) × IsTable t [] × (t.capacity ≡ n)
  unfolding ext_table_init
  ext_table_init-IsTable n pos small g = (
    record { size = 0; capacity = n; contents = replicate (words_bytes n / 4) none },
    rw g,
    record {
      counted = refl;
      fits = omega arith;
      allocated = omega (arith, length-replicate {0} {A = Option A} (words_bytes n / 4) none);
      nonempty = pos;
      bounded = small;
      holds = tt;
    },
    refl,
  )

  -- With room, or a block twice as long where there is none, the table can take one more entry.
  grow-IsTable :
      (t : ExtTable A) (xs : List A)
      → IsTable t xs
      → t.capacity < 2 ^ 29
      → granted (words_bytes (t.capacity * 2)) ≡ true
      → (u : ExtTable A) × (grow granted t ≡ ok u)
        × IsTable u xs
        × (u.size < u.capacity)
        × (u.capacity ≤ max t.capacity (2 * length xs))
  unfolding grow
  grow-IsTable t xs is small g = elim (Bool-cases (ltb t.size t.capacity)) [
    | inl room ↦ (t, rw room, is, ltb→lt _ _ room, omega arith)
    | inr full ↦ (
      record t {
        capacity = t.capacity * 2;
        contents = resize_cells (words_bytes (t.capacity * 2) / 4) t.contents;
      },
      rw (full, lt→ltb (t.capacity * 2) (2 ^ 31) (omega arith), g),
      record {
        counted = is.counted;
        fits = omega arith;
        allocated =
            omega (arith, length-resize_cells (words_bytes (t.capacity * 2) / 4) t.contents);
        nonempty = omega arith;
        bounded = omega arith;
        holds = resize_cells-Holds _ t.contents xs is.holds (omega arith);
      },
      omega arith,
      ground (arith, is.counted, is.fits),
    )
  ]

  -- Adding to a table of up to 2^29 cells whose growth the allocator grants returns the number of
  -- the entries before, and the table then holds the old entries in order, and the new one last; its block has grown to twice the old entries
  -- at most.
  pub ext_table_add-append :
      (t : ExtTable A) (xs : List A) (a : A)
      → IsTable t xs
      → t.capacity < 2 ^ 29
      → granted (words_bytes (t.capacity * 2)) ≡ true
      → (u : ExtTable A) × (ext_table_add granted t a ≡ ok (length xs, u))
        × IsTable u (xs ++ a ∷ [])
        × (u.capacity ≤ max t.capacity (2 * length xs))
  unfolding ext_table_add
  ext_table_add-append t xs a is small g =
      let (v, grown, isv, room, short) = grow-IsTable t xs is small g in
      let inside : ltb v.size (length v.contents) ≡ true =
        lt→ltb _ _ (omega (arith, isv.allocated)) in
      (
        record v { contents = set v.contents v.size (some a); size = v.size + 1 },
        rw (grown, inside, isv.counted),
        record {
          counted = omega (arith, isv.counted, length-append {0} xs (a ∷ []));
          fits = omega arith;
          allocated = omega (arith, isv.allocated, length-set {0} v.contents v.size (some a));
          nonempty = isv.nonempty;
          bounded = isv.bounded;
          holds =
              rw isv.counted
                (set-Holds v.contents xs a isv.holds (omega (arith, isv.allocated, isv.counted)));
        },
        short,
      )

  -- A full table whose growth is refused raises, and nothing is stored.
  pub ext_table_add-refused :
      (t : ExtTable A) (a : A)
      → t.size ≡ t.capacity
      → t.capacity < 2 ^ 29
      → granted (words_bytes (t.capacity * 2)) ≡ false
      → ext_table_add granted t a ≡ stop out_of_memory
  unfolding ext_table_add
  ext_table_add-refused t a full small g = ground (arith)

module _ {A : Type 0} where
  -- An entry is read back at its index.
  pub ext_table_get-entry :
      (t : ExtTable A) (xs : List A) (i : ℕ) {a : A}
      → IsTable t xs
      → get_elem? xs i ≡ some a
      → ext_table_get t i ≡ ok a
  unfolding ext_table_get
  ext_table_get-entry t xs i is e = rw (get_elem?-Holds t.contents xs i is.holds e)
