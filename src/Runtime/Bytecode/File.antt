-- ===== src/Runtime/Bytecode/File.antt =====
-- The file descriptors that ocaml/byterun/custom_startup.c reads byte-code files through: the calls
-- of the C library that it makes on them, and C strings compared up to a length.
use multi_script.Prelude.{
  ℕ, zero, suc, ◌+◌, ◌-◌, ◌^◌, ◌<◌, ◌≡◌, refl, Bool, true, false, [], ◌∷◌, ◌++◌, Bytes, ◌==◌,
  if◌then◌else◌, length, take, drop, leb, ltb, arith, length-append, ap, ◌∙◌, lt→ltb,
}

-- An open file of fixed contents, and the position of the next read.
pub record Fd : Type 0 where
  pub contents : Bytes
  pub position : ℕ

-- `lseek(fd, -ofs, SEEK_END)` with a `long` of 32 bits: a seek to before the start fails, and leaves
-- the position as it is.
unfoldable pub lseek_end : ℕ → Fd → Fd
lseek_end ofs fd =
    if ltb ofs (2 ^ 31)
    then (if leb ofs (length fd.contents)
        then record fd { position = length fd.contents - ofs }
        else fd)
    else record fd { position = length fd.contents + (2 ^ 32 - ofs) }

-- `read(fd, buf, n)`: as many bytes as there are, up to `n`.
unfoldable pub read : ℕ → Fd → Bytes × Fd
read n fd =
    let got = take n (drop fd.position fd.contents) in
    (got, record fd { position = fd.position + length got })

-- `strncmp(a, b, n) == 0`; a list ends where the string does.
unfoldable pub strncmp_eq : ℕ → Bytes → Bytes → Bool
strncmp_eq zero a b = true
strncmp_eq (suc n) [] [] = true
strncmp_eq (suc n) [] (y ∷ ys) = y == 0
strncmp_eq (suc n) (x ∷ xs) [] = x == 0
strncmp_eq (suc n) (x ∷ xs) (y ∷ ys) =
    let rest = strncmp_eq n xs ys in if x == y then (if x == 0 then true else rest) else false

pub drop-front : (xs ys : Bytes) → drop (length xs) (xs ++ ys) ≡ ys
drop-front [] ys = refl
drop-front (x ∷ xs) ys = drop-front xs ys

pub take-front : (xs ys : Bytes) → take (length xs) (xs ++ ys) ≡ xs
take-front [] ys = refl
take-front (x ∷ xs) ys = ap (λ (zs : Bytes). x ∷ zs) (take-front xs ys)

-- A seek to the start of a suffix of the file.
pub lseek_end-suffix :
    (fd : Fd) (front back : Bytes)
    → fd.contents ≡ front ++ back
    → length back < 2 ^ 31
    → lseek_end (length back) fd ≡ record fd { position = length front }
unfolding lseek_end
lseek_end-suffix fd front back file small =
    let whole = ap (length {0} {A = ℕ}) file ∙ length-append {0} front back in
    let fits : leb (length back) (length fd.contents) ≡ true = ground (arith, whole) in
    let at : length fd.contents - length back ≡ length front = omega (arith, whole) in
    rw (lt→ltb _ _ small, fits, at)

-- The bytes between two others.
pub take-middle :
    (file front middle back : Bytes)
    → file ≡ front ++ (middle ++ back)
    → take (length middle) (drop (length front) file) ≡ middle
take-middle file front middle back is =
    ap (λ (bs : Bytes). take {0} {A = ℕ} (length middle) (drop (length front) bs)) is
    ∙ ap (take {0} {A = ℕ} (length middle)) (drop-front front (middle ++ back))
    ∙ take-front middle back
