-- ===== src/Runtime/Bytecode/Toc.antt =====
-- The table of contents of a well formed byte-code file is read back.
use multi_script.Prelude.{
  ℕ, ◌+◌, ◌*◌, ◌%◌, ◌^◌, ◌<◌, ◌≡◌, refl, ap, sym, ◌∙◌, Bool, true, Option, some, List, [], ◌∷◌,
  ◌++◌, append_assoc, map, Bytes, length, length-append, arith, drop, ltb, lt→ltb, ◌==◌,
}
use multi_script.Outcome.{ok}
use multi_script.Runtime.Fatal.{FatalErrorFunc}
use multi_script.Runtime.Bytecode.{
  ExecTrailer, opened, exec_magic, fixup_endianness_trailer, load_u32, read_trailer,
  caml_attempt_open, fix_lengths, caml_read_section_descriptors, allocate,
}
use multi_script.Runtime.Bytecode.File.{Fd, lseek_end-suffix, take-middle, drop-front}
use multi_script.Runtime.Bytecode.Layout.{
  Section, encode_u32, body, table, trailer, write, AllNamed, describe, length-table,
}

load_u32-encode_u32 : (n : ℕ) → load_u32 (fixup_endianness_trailer (encode_u32 n)) ≡ n
unfolding load_u32 fixup_endianness_trailer
load_u32-encode_u32 n = omega arith

-- The loop over the table of contents finds the names and lengths.
fix_lengths-table :
    (ss : List Section) → AllNamed ss → fix_lengths (length ss) (table ss) ≡ ok (map describe ss)
unfolding fix_lengths
fix_lengths-table [] h = refl
fix_lengths-table ((a ∷ b ∷ c ∷ e ∷ [], d) ∷ ss) h =
    rw (fix_lengths-table ss h.1, load_u32-encode_u32 (length d))
fix_lengths-table (([], d) ∷ ss) h = absurd (omega (arith, h.0))
fix_lengths-table ((a ∷ [], d) ∷ ss) h = absurd (omega (arith, h.0))
fix_lengths-table ((a ∷ b ∷ [], d) ∷ ss) h = absurd (omega (arith, h.0))
fix_lengths-table ((a ∷ b ∷ c ∷ [], d) ∷ ss) h = absurd (omega (arith, h.0))
fix_lengths-table ((a ∷ b ∷ c ∷ e ∷ f ∷ n, d) ∷ ss) h = absurd (omega (arith, h.0))

-- The trailer is read from the end of the file.
read_trailer-trailer :
    (fd : Fd) (front : Bytes) (n : ℕ)
    → fd.contents ≡ front ++ trailer n
    → read_trailer fd ≡ (
      some (record { num_sections = n; magic = exec_magic; section = [] }),
      record fd { position = length front + 16 },
    )
unfolding read_trailer
read_trailer-trailer fd front n file =
    let sought = lseek_end-suffix fd front (trailer n) file (omega arith) in
    let there : drop (length front) fd.contents ≡ trailer n =
      ap (drop {0} {A = ℕ} (length front)) file ∙ drop-front front (trailer n) in
    rw (sought, there, load_u32-encode_u32 n)

-- The table in memory, of a file that is laid out like this.
pub record IsToc (junk : Bytes) (ss : List Section) (toc : ExecTrailer) : Type 0 where
  pub described : toc.section ≡ map describe ss
  pub counted : toc.num_sections ≡ length ss
  pub named : AllNamed ss
  pub small : length (write junk ss) < 2 ^ 31

module _ (granted : ℕ → Bool) (fatal : FatalErrorFunc) (all : (n : ℕ) → granted n ≡ true) where
  pub allocate-granted : (n : ℕ) → allocate granted n ≡ ok tt
  allocate-granted n = ground (arith, all n)

  caml_read_section_descriptors-table :
      (fd : Fd) (trail : ExecTrailer) (front : Bytes) (ss : List Section)
      → fd.contents ≡ front ++ (table ss ++ trailer (length ss))
      → trail.num_sections ≡ length ss
      → AllNamed ss
      → length fd.contents < 2 ^ 31
      → caml_read_section_descriptors granted fatal fd trail
        ≡ ok (
          record trail { section = map describe ss },
          record fd { position = length front + length (table ss) },
        )
  unfolding caml_read_section_descriptors
  caml_read_section_descriptors-table fd trail front ss file counted named small =
      let rest = table ss ++ trailer (length ss) in
      let whole = ap (length {0} {A = ℕ}) file ∙ length-append {0} front rest in
      let parts = length-append {0} (table ss) (trailer (length ss)) in
      let toc : trail.num_sections * 8 % 2 ^ 32 ≡ length (table ss) =
        omega (arith, whole, parts, counted, length-table ss named) in
      let back : (16 + length (table ss)) % 2 ^ 32 ≡ length rest = omega (arith, whole, parts) in
      let sought = lseek_end-suffix fd front rest file (omega (arith, whole)) in
      let got = take-middle fd.contents front (table ss) (trailer (length ss)) file in
      let fits : ltb (length (table ss)) (2 ^ 31) ≡ true =
        lt→ltb _ _ (omega (arith, whole, parts)) in
      let same : (length (table ss) == length (table ss)) ≡ true = ground arith in
      rw (
        toc,
        allocate-granted (length (table ss)),
        back,
        sought,
        got,
        fits,
        same,
        counted,
        fix_lengths-table ss named,
      )

  -- The file opens, and its table of contents is read.
  pub open_sections :
      (files : Bytes → Option Bytes) (path junk : Bytes) (ss : List Section)
      → files path ≡ some (write junk ss)
      → AllNamed ss
      → length (write junk ss) < 2 ^ 31
      → (fd fd' : Fd) × (trail trail' : ExecTrailer) × (caml_attempt_open files path true
          ≡ opened fd trail)
        × (caml_read_section_descriptors granted fatal fd trail ≡ ok (trail', fd'))
        × (fd'.contents ≡ write junk ss)
        × IsToc junk ss trail'
  unfolding caml_attempt_open write
  open_sections files path junk ss there named small =
      let file = write junk ss in
      let start : Fd = record { contents = file; position = 0 } in
      let split : file ≡ (junk ++ (body ss ++ table ss)) ++ trailer (length ss) =
        ap (λ (b : Bytes). junk ++ b)
          (sym (append_assoc (body ss) (table ss) (trailer (length ss))))
        ∙ sym (append_assoc junk (body ss ++ table ss) (trailer (length ss))) in
      let got = read_trailer-trailer start _ (length ss) split in
      let fd : Fd = record start { position = length (junk ++ (body ss ++ table ss)) + 16 } in
      let trail : ExecTrailer = record {
        num_sections = length ss;
        magic = exec_magic;
        section = [];
      } in
      let before : file ≡ (junk ++ body ss) ++ (table ss ++ trailer (length ss)) =
        sym (append_assoc junk (body ss) (table ss ++ trailer (length ss))) in
      (
        fd,
        record fd { position = length (junk ++ body ss) + length (table ss) },
        trail,
        record trail { section = map describe ss },
        rw (there, caml_attempt_open, got),
        caml_read_section_descriptors-table fd trail (junk ++ body ss) ss before refl named small,
        refl,
        record { described = refl; counted = refl; named = named; small = small },
      )
