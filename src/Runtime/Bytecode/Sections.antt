-- ===== src/Runtime/Bytecode/Sections.antt =====
-- Each section of a well formed byte-code file is read back.
use multi_script.Prelude.{
  ℕ, ◌+◌, ◌*◌, ◌%◌, ◌^◌, ◌<◌, ◌≡◌, refl, ap, sym, ◌∙◌, Bool, true, false, Option, none, some, List,
  [], ◌∷◌, ◌++◌, append_assoc, map, reverse, Bytes, codes, length, length-append, arith, ◌==◌,
  Bool-cases, inl, inr,
}
use mathlib.Core.List.{reverse_aux}
use mathlib.Core.Path.{subst}
use multi_script.Outcome.{ok}
use multi_script.Runtime.Fatal.{FatalErrorFunc, caml_fatal_error_arg}
use multi_script.Runtime.Bytecode.{
  ExecTrailer, opened, caml_attempt_open, caml_read_section_descriptors, minus_one, seek_loop,
  caml_seek_optional_section, caml_seek_section, read_section,
}
use multi_script.Runtime.Bytecode.File.{Fd, strncmp_eq, lseek_end-suffix, take-middle}
use multi_script.Runtime.Bytecode.Toc.{IsToc, open_sections, allocate-granted}
use multi_script.Runtime.Bytecode.Layout.{
  Section, body, table, trailer, write, AllNamed, describe, first_section, length-table, body_down,
  body_down-reverse,
}

reverse_aux-map :
    (ss ts : List Section)
    → reverse_aux (map describe ss) (map describe ts) ≡ map describe (reverse_aux ss ts)
reverse_aux-map [] ts = refl
reverse_aux-map (s ∷ ss) ts = reverse_aux-map ss (s ∷ ts)

-- What a seek is to give: no section, or the length of its data, and the position of these.
abbrev pub Located : Option Bytes → Fd → ℕ × Fd → Type 0
Located none fd r = r ≡ (minus_one, fd)
Located (some d) fd r =
    (front back : Bytes) × (fd.contents ≡ front ++ (d ++ back))
    × (r ≡ (length d, record fd { position = length front }))

seek_loop-Located :
    (name : Bytes) (ss : List Section) (junk tail : Bytes) (fd : Fd)
    → fd.contents ≡ junk ++ (body_down ss ++ tail)
    → length fd.contents < 2 ^ 31
    → Located (first_section name ss) fd (seek_loop (map describe ss) (length tail) name fd)
unfolding seek_loop first_section
seek_loop-Located name [] junk tail fd file small = refl
seek_loop-Located name ((n, d) ∷ ss) junk tail fd file small =
    let next : fd.contents ≡ junk ++ (body_down ss ++ (d ++ tail)) =
      file ∙ ap (λ (b : Bytes). junk ++ b) (append_assoc (body_down ss) d tail) in
    let near : fd.contents ≡ (junk ++ body_down ss) ++ (d ++ tail) =
      next ∙ sym (append_assoc junk (body_down ss) (d ++ tail)) in
    let whole = ap (length {0} {A = ℕ}) near in
    let sum = length-append {0} (junk ++ body_down ss) (d ++ tail) in
    let both = length-append {0} d tail in
    let offset : (length tail + length d) % 2 ^ 32 ≡ length (d ++ tail) =
      omega (arith, whole, sum, both) in
    elim (Bool-cases (strncmp_eq 4 n name)) [
      | inl same ↦
          let sought =
            lseek_end-suffix fd (junk ++ body_down ss) (d ++ tail) near
              (omega (arith, whole, sum)) in
          rw (same, offset, sought) (junk ++ body_down ss, tail, near, refl)
      | inr other ↦ rw (other, offset) (seek_loop-Located name ss junk (d ++ tail) fd next small)
    ]

caml_seek_optional_section-Located :
    (name junk : Bytes) (ss : List Section) (fd : Fd) (toc : ExecTrailer)
    → IsToc junk ss toc
    → fd.contents ≡ write junk ss
    → Located (first_section name (reverse ss)) fd (caml_seek_optional_section fd toc name)
unfolding caml_seek_optional_section write
caml_seek_optional_section-Located name junk ss fd toc is file =
    let tail = table ss ++ trailer (length ss) in
    let outer = length-append {0} junk (body ss ++ tail) in
    let inner = length-append {0} (body ss) tail in
    let parts = length-append {0} (table ss) (trailer (length ss)) in
    let offset : (16 + toc.num_sections * 8) % 2 ^ 32 ≡ length tail =
      omega (arith, outer, inner, parts, is.counted, is.small, length-table ss is.named) in
    let down : fd.contents ≡ junk ++ (body_down (reverse ss) ++ tail) =
      file ∙ ap (λ (b : Bytes). junk ++ (b ++ tail)) (sym (body_down-reverse ss)) in
    let order : reverse toc.section ≡ map describe (reverse ss) =
      ap reverse is.described ∙ reverse_aux-map ss [] in
    let short : length fd.contents < 2 ^ 31 = rw file is.small in
    rw (offset, order) (seek_loop-Located name (reverse ss) junk tail fd down short)

-- A string in memory, with its terminating zero.
abbrev pub terminated : Option Bytes → Option Bytes
terminated none = none
terminated (some d) = some (d ++ 0 ∷ [])

module _ (granted : ℕ → Bool) (fatal : FatalErrorFunc) (all : (n : ℕ) → granted n ≡ true) where
  -- Seeking a section that the file has.
  pub caml_seek_section-named :
      (name d junk : Bytes) (ss : List Section) (fd : Fd) (toc : ExecTrailer)
      → IsToc junk ss toc
      → fd.contents ≡ write junk ss
      → first_section name (reverse ss) ≡ some d
      → (front back : Bytes) × (fd.contents ≡ front ++ (d ++ back))
        × (caml_seek_section granted fatal fd toc name
            ≡ ok (length d, record fd { position = length front }))
  unfolding caml_seek_section
  caml_seek_section-named name d junk ss fd toc is there has =
      let located = caml_seek_optional_section-Located name junk ss fd toc is there in
      let (front, back, file, sought) =
        subst (λ (o : Option Bytes). Located o fd (caml_seek_optional_section fd toc name)) has
          located in
      let whole = ap (length {0} {A = ℕ}) file ∙ length-append {0} front (d ++ back) in
      let parts = length-append {0} d back in
      let short : length fd.contents < 2 ^ 31 = rw there is.small in
      let found : (length d == minus_one) ≡ false = ground (arith, whole, parts) in
      (front, back, file, rw (sought, found))

  -- Seeking a section that the file lacks.
  pub caml_seek_section-lacking :
      (name junk : Bytes) (ss : List Section) (fd : Fd) (toc : ExecTrailer)
      → IsToc junk ss toc
      → fd.contents ≡ write junk ss
      → first_section name (reverse ss) ≡ none
      → caml_seek_section granted fatal fd toc name
        ≡ caml_fatal_error_arg fatal (codes "Fatal_error: section `%s' is missing\n")
  unfolding caml_seek_section
  caml_seek_section-lacking name junk ss fd toc is there lacks =
      let located = caml_seek_optional_section-Located name junk ss fd toc is there in
      let sought : caml_seek_optional_section fd toc name ≡ (minus_one, fd) =
        subst (λ (o : Option Bytes). Located o fd (caml_seek_optional_section fd toc name)) lacks
          located in
      rw sought

  read_section-Located :
      (fd : Fd) (trail : ExecTrailer) (name : Bytes) (o : Option Bytes)
      → Located o fd (caml_seek_optional_section fd trail name)
      → length fd.contents < 2 ^ 31
      → (fd' : Fd) × (read_section granted fatal fd trail name ≡ ok (terminated o, fd'))
        × (fd'.contents ≡ fd.contents)
  unfolding read_section
  read_section-Located fd trail name none is small = (fd, rw is, refl)
  read_section-Located fd trail name (some d) (front, back, file, is) small =
      let whole = ap (length {0} {A = ℕ}) file ∙ length-append {0} front (d ++ back) in
      let parts = length-append {0} d back in
      let found : (length d == minus_one) ≡ false = ground (arith, whole, parts) in
      let got = take-middle fd.contents front d back file in
      let same : (length d == length d) ≡ true = ground arith in
      (
        record fd { position = length front + length d },
        rw (is, found, allocate-granted granted fatal all (length d + 1), got, same),
        refl,
      )

  -- Reading a section, whether the file has it or not.
  pub read_section-named :
      (name junk : Bytes) (ss : List Section) (fd : Fd) (toc : ExecTrailer)
      → IsToc junk ss toc
      → fd.contents ≡ write junk ss
      → (fd' : Fd) × (read_section granted fatal fd toc name
          ≡ ok (terminated (first_section name (reverse ss)), fd'))
        × (fd'.contents ≡ write junk ss)
  read_section-named name junk ss fd toc is there =
      let located = caml_seek_optional_section-Located name junk ss fd toc is there in
      let short : length fd.contents < 2 ^ 31 = rw there is.small in
      let (fd', ran, kept) = read_section-Located fd toc name _ located short in
      (fd', ran, kept ∙ there)

  -- A file that is laid out from sections with names of four bytes, after any junk, and is shorter
  -- than 2^31 bytes, opens, and its table of contents is read. From any position in it, reading a
  -- section gives the data of the last section with the name, with a terminating zero, or a null
  -- pointer if there is none. The allocator is to grant every request.
  pub read_section-write :
      (files : Bytes → Option Bytes) (path junk : Bytes) (ss : List Section)
      → files path ≡ some (write junk ss)
      → AllNamed ss
      → length (write junk ss) < 2 ^ 31
      → (fd fd' : Fd) × (trail trail' : ExecTrailer) × (caml_attempt_open files path true
          ≡ opened fd trail)
        × (caml_read_section_descriptors granted fatal fd trail ≡ ok (trail', fd'))
        × ((name : Bytes) (p : ℕ)
            → (fd'' : Fd) × (read_section granted fatal (record fd' { position = p }) trail' name
                ≡ ok (terminated (first_section name (reverse ss)), fd'')))
  read_section-write files path junk ss there named small =
      let (fd, fd', trail, trail', open_ok, toc_ok, file, is) =
        open_sections granted fatal all files path junk ss there named small in
      (
        fd,
        fd',
        trail,
        trail',
        open_ok,
        toc_ok,
        λ name p.
            let at : Fd = record fd' { position = p } in
            let (fd'', ran, _) = read_section-named name junk ss at trail' is file in (fd'', ran),
      )
