-- ===== src/Runtime/Bytecode.antt =====
-- ocaml/byterun/custom_startup.c: the sections of a byte-code file, ocaml/byterun/exec.h, which lie
-- before a table of contents and a trailer at the end of the file.
pub mod File
pub mod Layout
pub mod Toc
pub mod Sections
pub mod Load
use multi_script.Prelude.{
  ℕ, zero, suc, ◌+◌, ◌-◌, ◌*◌, ◌^◌, ◌%◌, Bool, true, false, Option, none, some, List, [], ◌∷◌, ◌++◌,
  reverse, Bytes, codes, ◌==◌, if◌then◌else◌, length, take, drop, ltb, not, ◌&&◌, ◌||◌,
}
use multi_script.Outcome.{Outcome, ok, stop, undefined, out_of_memory, ◌>>=◌, ◌>>◌}
use multi_script.Runtime.Fatal.{FatalErrorFunc, caml_fatal_error_arg}
use multi_script.Runtime.Bytecode.File.{Fd, lseek_end, read, strncmp_eq}

-- `struct section_descriptor`
pub record SectionDescriptor : Type 0 where
  pub name : Bytes
  pub len : ℕ

-- `struct exec_trailer`
pub record ExecTrailer : Type 0 where
  pub num_sections : ℕ
  pub magic : Bytes
  pub section : List SectionDescriptor

abbrev pub trailer_size : ℕ
trailer_size = 16

abbrev pub exec_magic : Bytes
exec_magic = codes "Caml1999X008"

-- The codes that `caml_attempt_open` returns in place of a descriptor are constructors here.
pub data Attempt : Type 0 where
  opened : Fd → ExecTrailer → Attempt
  file_not_found bad_bytecode : Attempt

-- Swaps the bytes of the `uint32` at the start.
unfoldable pub fixup_endianness_trailer : Bytes → Bytes
fixup_endianness_trailer (a ∷ b ∷ c ∷ d ∷ rest) = d ∷ c ∷ b ∷ a ∷ rest
fixup_endianness_trailer bs = bs

-- A `uint32` in memory, its low byte first.
unfoldable pub load_u32 : Bytes → ℕ
load_u32 [] = 0
load_u32 (b ∷ bs) = b + 256 * load_u32 bs

-- The trailer, or `none` for BAD_BYTECODE; its sections are not read yet.
unfoldable pub read_trailer : Fd → Option ExecTrailer × Fd
unfolding lseek_end read strncmp_eq fixup_endianness_trailer load_u32
read_trailer fd =
    let (bs, fd') = read trailer_size (lseek_end trailer_size fd) in
    if ltb (length bs) trailer_size
    then (none, fd')
    else (if strncmp_eq 12 (drop 4 bs) exec_magic
        then (
          some (record {
            num_sections = load_u32 (fixup_endianness_trailer (take 4 bs));
            magic = drop 4 bs;
            section = [];
          }),
          fd',
        )
        else (none, fd'))

-- `err < 2 || (buf[0] == '#' && buf[1] == '!')`
abbrev pub is_script : Bytes → Bool
is_script (a ∷ b ∷ rest) = a == 35 && b == 33
is_script _ = true

-- The end of `caml_attempt_open`.
abbrev pub checked : Option ExecTrailer × Fd → Attempt
checked (none, fd) = bad_bytecode
checked (some trail, fd) = opened fd trail

-- `files` says which files there are, with what contents.
unfoldable pub caml_attempt_open : (Bytes → Option Bytes) → Bytes → Bool → Attempt
unfolding read_trailer read
caml_attempt_open files name do_open_script = elim (files name) [
  | none ↦ file_not_found
  | some bs ↦
      let fd : Fd = record { contents = bs; position = 0 } in
      let (buf, fd') = read 2 fd in
      if do_open_script
      then checked (read_trailer fd)
      else (if is_script buf then bad_bytecode else checked (read_trailer fd'))
]

-- The table of contents in memory, after the loop that swaps its lengths; the loop leaves the block
-- if that is too short.
unfoldable pub fix_lengths : ℕ → Bytes → Outcome (List SectionDescriptor)
unfolding fixup_endianness_trailer load_u32
fix_lengths zero bs = ok []
fix_lengths (suc n) (a ∷ b ∷ c ∷ d ∷ e ∷ f ∷ g ∷ h ∷ bs) = do
  rest ← fix_lengths n bs
  let len = load_u32 (fixup_endianness_trailer (e ∷ f ∷ g ∷ h ∷ []))
  ok ((record { name = a ∷ b ∷ c ∷ d ∷ []; len = len }) ∷ rest)
fix_lengths (suc n) bs = stop undefined

abbrev pub with_sections :
    ExecTrailer → Fd → Outcome (List SectionDescriptor) → Outcome (ExecTrailer × Fd)
with_sections trail fd sections = sections >>= λ ss. ok (record trail { section = ss }, fd)

-- `-1` as an `int32`
abbrev pub minus_one : ℕ
minus_one = 2 ^ 32 - 1

-- The loop over the descriptors, from the last one down, with `ofs` before the round.
unfoldable pub seek_loop : List SectionDescriptor → ℕ → Bytes → Fd → ℕ × Fd
unfolding lseek_end strncmp_eq
seek_loop [] ofs name fd = (minus_one, fd)
seek_loop (s ∷ ss) ofs name fd =
    let ofs' = (ofs + s.len) % 2 ^ 32 in
    let further = seek_loop ss ofs' name fd in
    if strncmp_eq 4 s.name name then (s.len, lseek_end ofs' fd) else further

unfoldable pub caml_seek_optional_section : Fd → ExecTrailer → Bytes → ℕ × Fd
unfolding seek_loop
caml_seek_optional_section fd trail name =
    seek_loop (reverse trail.section) ((trailer_size + trail.num_sections * 8) % 2 ^ 32) name fd

-- `caml_stat_alloc(sz)`, for the sizes that are granted.
abbrev pub allocate : (ℕ → Bool) → ℕ → Outcome (Unit {0})
allocate granted sz = if sz == 0 || granted sz then ok tt else stop out_of_memory

module _ (granted : ℕ → Bool) (fatal : FatalErrorFunc) where
  -- `toc_size` is an `int`; a `read` of a negative number of bytes fails.
  unfoldable pub caml_read_section_descriptors : Fd → ExecTrailer → Outcome (ExecTrailer × Fd)
  unfolding fix_lengths lseek_end read caml_fatal_error_arg
  caml_read_section_descriptors fd trail = do
    let toc_size = trail.num_sections * 8 % 2 ^ 32
    allocate granted toc_size
    let (toc, fd') = read toc_size (lseek_end ((trailer_size + toc_size) % 2 ^ 32) fd)
    if ltb toc_size (2 ^ 31) && (length toc == toc_size)
        then with_sections trail fd' (fix_lengths trail.num_sections toc)
        else caml_fatal_error_arg fatal (codes "Fatal error: cannot read section table\n")

  unfoldable pub caml_seek_section : Fd → ExecTrailer → Bytes → Outcome (ℕ × Fd)
  unfolding caml_seek_optional_section caml_fatal_error_arg
  caml_seek_section fd trail name =
      let (len, fd') = caml_seek_optional_section fd trail name in
      if len == minus_one
      then caml_fatal_error_arg fatal (codes "Fatal_error: section `%s' is missing\n")
      else ok (len, fd')

  -- The data with the terminating zero; a null pointer is `none`.
  unfoldable pub read_section : Fd → ExecTrailer → Bytes → Outcome (Option Bytes × Fd)
  unfolding caml_seek_optional_section read caml_fatal_error_arg
  read_section fd trail name =
      let (len, fd') = caml_seek_optional_section fd trail name in
      if len == minus_one then ok (none, fd') else do
        allocate granted (len + 1)
        let (bytes, fd'') = read len fd'
        if length bytes == len
            then ok (some (bytes ++ 0 ∷ []), fd'')
            else caml_fatal_error_arg fatal (codes "Fatal error: error reading section %s\n")
