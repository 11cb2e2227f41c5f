-- ===== src/Runtime/Dynlink/Strings.antt =====
-- Strings laid end to end, each with its terminating zero, as the byte-code sections hold names:
-- the walk `for (p = req_prims; *p != 0; p += strlen(p) + 1)`.
use multi_script.Prelude.{
  ◌≡◌, ◌≢◌, refl, ◌∙◌, sym, Bool, true, false, List, [], ◌∷◌, ◌++◌, reverse, Bytes, ◌==◌,
  if◌then◌else◌, arith, ap,
}
use mathlib.Core.List.{reverse-reverse, reverse_aux}

abbrev pub string_end : Bytes → List Bytes × Bool → List Bytes × Bool
string_end [] later = ([], true)
string_end (c ∷ cs) (names, ended) = (reverse (c ∷ cs) ∷ names, ended)

-- The strings that the walk meets, and whether it meets the empty string that ends it. The first
-- argument holds the bytes of the current string so far, the last one first.
unfoldable pub c_strings : Bytes → Bytes → List Bytes × Bool
c_strings current [] = ([], false)
c_strings current (c ∷ cs) =
    let stopped = string_end current (c_strings [] cs) in
    let further = c_strings (c ∷ current) cs in if c == 0 then stopped else further

-- How the byte-code linker writes names.
unfoldable pub encode : List Bytes → Bytes
encode [] = 0 ∷ []
encode (n ∷ ns) = n ++ 0 ∷ encode ns

-- A string that a zero can end: not empty, and with no zero inside.
abbrev pub NoZero : Bytes → Type 0
NoZero [] = Unit
NoZero (c ∷ cs) = (c ≢ 0) × NoZero cs

abbrev pub IsName : Bytes → Type 0
IsName n = (n ≢ []) × NoZero n

abbrev pub AllNames : List Bytes → Type 0
AllNames [] = Unit
AllNames (n ∷ ns) = IsName n × AllNames ns

c_strings-NoZero :
    (current n rest : Bytes)
    → NoZero n
    → c_strings current (n ++ rest) ≡ c_strings (reverse_aux n current) rest
unfolding c_strings
c_strings-NoZero current [] rest h = refl
c_strings-NoZero current (c ∷ cs) rest h =
    let more : (c == 0) ≡ false = ground arith in
    rw more (c_strings-NoZero (c ∷ current) cs rest h.1)

-- A current string that is not empty is one of the strings when its zero comes.
string_end-cons :
    (current n : Bytes) (later : List Bytes × Bool)
    → reverse n ≡ current
    → n ≢ []
    → string_end current later ≡ (n ∷ later.0, later.1)
string_end-cons [] n later e ne = absurd (ne (sym (reverse-reverse n) ∙ ap reverse e))
string_end-cons (c ∷ cs) n (names, ended) e ne =
    ap (λ m. (m ∷ names, ended)) (sym (ap reverse e) ∙ reverse-reverse n)

-- The walk gives back the names that were laid out, and stops where they end.
pub c_strings-encode : (ns : List Bytes) → AllNames ns → c_strings [] (encode ns) ≡ (ns, true)
unfolding c_strings encode
c_strings-encode [] h = refl
c_strings-encode (n ∷ ns) h =
    c_strings-NoZero [] n (0 ∷ encode ns) h.0.1
    ∙ string_end-cons (reverse n) n (c_strings [] (encode ns)) refl h.0.0
    ∙ ap (λ (r : List Bytes × Bool). (n ∷ r.0, r.1)) (c_strings-encode ns h.1)
