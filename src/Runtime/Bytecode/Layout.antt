-- ===== src/Runtime/Bytecode/Layout.antt =====
-- How the byte-code linker lays out a file, as ocaml/byterun/exec.h draws it.
use multi_script.Prelude.{
  ℕ, ◌*◌, ◌/◌, ◌%◌, ◌^◌, ◌≡◌, refl, ap, sym, ◌∙◌, Option, none, some, List, [], ◌∷◌, ◌++◌,
  append_assoc, append-nil, reverse, Bytes, if◌then◌else◌, length, length-append, arith,
}
use mathlib.Core.List.{reverse-append}
use multi_script.Runtime.Bytecode.{SectionDescriptor, exec_magic}
use multi_script.Runtime.Bytecode.File.{strncmp_eq}

-- A section by its name and its data.
abbrev pub Section : Type 0
Section = Bytes × Bytes

-- A number of 32 bits, its high byte first.
abbrev pub encode_u32 : ℕ → Bytes
encode_u32 n = n / 2 ^ 24 ∷ n / 2 ^ 16 % 256 ∷ n / 2 ^ 8 % 256 ∷ n % 256 ∷ []

abbrev pub body : List Section → Bytes
body [] = []
body ((n, d) ∷ ss) = d ++ body ss

abbrev pub table : List Section → Bytes
table [] = []
table ((n, d) ∷ ss) = n ++ (encode_u32 (length d) ++ table ss)

abbrev pub trailer : ℕ → Bytes
trailer n = encode_u32 n ++ exec_magic

unfoldable pub write : Bytes → List Section → Bytes
write junk ss = junk ++ (body ss ++ (table ss ++ trailer (length ss)))

-- Names have four bytes.
abbrev pub AllNamed : List Section → Type 0
AllNamed [] = Unit
AllNamed ((n, d) ∷ ss) = (length n ≡ 4) × AllNamed ss

abbrev pub describe : Section → SectionDescriptor
describe (n, d) = record { name = n; len = length d }

-- The data of the first section with the name.
unfoldable pub first_section : Bytes → List Section → Option Bytes
first_section name [] = none
first_section name ((n, d) ∷ ss) = if strncmp_eq 4 n name then some d else first_section name ss

pub length-table : (ss : List Section) → AllNamed ss → length (table ss) ≡ 8 * length ss
length-table [] h = refl
length-table ((n, d) ∷ ss) h =
    omega (arith, length-append {0} n (encode_u32 (length d) ++ table ss), length-table ss h.1, h.0)

-- The data of sections that stand in the order of the loop over them, last one first.
abbrev pub body_down : List Section → Bytes
body_down [] = []
body_down ((n, d) ∷ ss) = body_down ss ++ d

body_down-append : (xs ys : List Section) → body_down (xs ++ ys) ≡ body_down ys ++ body_down xs
body_down-append [] ys = sym (append-nil (body_down ys))
body_down-append ((n, d) ∷ xs) ys =
    ap (λ (b : Bytes). b ++ d) (body_down-append xs ys)
    ∙ append_assoc (body_down ys) (body_down xs) d

pub body_down-reverse : (ss : List Section) → body_down (reverse ss) ≡ body ss
body_down-reverse [] = refl
body_down-reverse ((n, d) ∷ ss) =
    ap body_down (reverse-append ((n, d) ∷ []) ss)
    ∙ body_down-append (reverse ss) ((n, d) ∷ [])
    ∙ ap (λ (b : Bytes). d ++ b) (body_down-reverse ss)
