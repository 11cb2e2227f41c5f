-- ===== src/Runtime/Channel/Input/Words.antt =====
-- Numbers of 32 bits that go through a file: what `caml_putword` writes, `caml_getword` reads.
use multi_script.Prelude.{
  ℕ, zero, suc, ◌+◌, ◌/◌, ◌%◌, ◌^◌, ◌≤◌, ◌<◌, ◌≡◌, ap, sym, ◌∙◌, true, some, [], ◌∷◌, ◌++◌, Bytes,
  take, append-nil, append_assoc, take-append-drop, length, length-drop, drop, leb, nil_of_length,
  arith, Bool-cases, inl, inr, get_elem?,
}
use multi_script.Outcome.{ok, ◌>>=◌}
use multi_script.Runtime.Channel.{io_buffer_size, World, Channel, caml_putword, caml_flush}
use multi_script.Runtime.Channel.Delivery
use multi_script.Runtime.Channel.Delivery.{caml_flush-Delivered, Delivered-trans}
use multi_script.Runtime.Channel.Puts.{word_bytes, caml_putword-Puts}
use multi_script.Runtime.Channel.Input.{
  Source, InChannel, caml_do_read, getch, caml_refill, caml_getword, shift_in, first_byte,
}
use multi_script.Runtime.Channel.Input.Receipt.{Benign, unread, read_again-Given}

first_byte-append :
    (bytes rest : Bytes) {b : ℕ} {bs : Bytes}
    → b ∷ bs ≡ bytes ++ rest
    → 0 < length bytes
    → (first_byte bytes ≡ ok b) × (drop 1 bytes ++ rest ≡ bs)
first_byte-append [] rest e pos = absurd (omega arith)
first_byte-append (x ∷ xs) rest e pos = ground (arith)

get_elem?-drop :
    (buff : Bytes) (k : ℕ) (rest : Bytes) {b : ℕ} {bs : Bytes}
    → k < length buff
    → drop k buff ++ rest ≡ b ∷ bs
    → (get_elem? buff k ≡ some b) × (drop (suc k) buff ++ rest ≡ bs)
get_elem?-drop [] k rest lt e = absurd (omega arith)
get_elem?-drop (x ∷ xs) zero rest lt e = ground (arith)
get_elem?-drop (x ∷ xs) (suc k) rest lt e = get_elem?-drop xs k rest (omega arith) e

-- A byte came out, and these are left.
record Next (b : ℕ) (bs : Bytes) (c : InChannel) (s : Source) (c' : InChannel) (s' : Source)
    : Type 0 where
  ran : getch c s ≡ ok (b, c', s')
  rest : unread c' s' ≡ bs
  inside : c'.curr ≤ length c'.buff
  benign : Benign s'.answers

getch-Next :
    (c : InChannel) (s : Source) {b : ℕ} {bs : Bytes}
    → unread c s ≡ b ∷ bs
    → c.curr ≤ length c.buff
    → Benign s.answers
    → (c' : InChannel) × (s' : Source) × Next b bs c s c' s'
unfolding getch caml_refill caml_do_read
getch-Next c s {b} {bs} there inside benign = elim (Bool-cases (leb (length c.buff) c.curr)) [
  | inl empty ↦
      let none_ahead =
        nil_of_length {0} (drop c.curr c.buff) (ground (arith, length-drop {0} c.curr c.buff)) in
      let fresh : b ∷ bs ≡ s.incoming =
        sym there ∙ ap (λ (a : Bytes). a ++ s.incoming) none_ahead in
      let (bytes, s', ran, given) =
        read_again-Given s.answers io_buffer_size s (omega arith) benign in
      let some_given : 0 < length bytes = elim given.progress [
        | inl pos ↦ pos
        | inr dry ↦ absurd (omega (arith, dry, ap (length {0} {A = ℕ}) fresh))
      ] in
      let (first, rest) = first_byte-append bytes s'.incoming (fresh ∙ given.split) some_given in
      (
        record c { offset = c.offset + length bytes; buff = bytes; curr = 1 },
        s',
        record {
          ran = rw (empty, ran, first);
          rest = rest;
          inside = some_given;
          benign = given.benign;
        },
      )
  | inr some_left ↦
      let lt : c.curr < length c.buff = ground arith in
      let (first, rest) = get_elem?-drop c.buff c.curr s.incoming lt there in
      let next : suc c.curr ≡ c.curr + 1 = omega arith in
      (
        record c { curr = c.curr + 1 },
        s,
        record {
          ran = rw (some_left, first);
          rest = ap (λ (k : ℕ). drop {0} {A = ℕ} k c.buff ++ s.incoming) (sym next) ∙ rest;
          inside = omega arith;
          benign = benign;
        },
      )
]

shift_in-word_bytes :
    (x : ℕ)
    → x < 2 ^ 32
    → shift_in
        (shift_in (shift_in (shift_in 0 (x / 2 ^ 24 % 256)) (x / 2 ^ 16 % 256)) (x / 2 ^ 8 % 256))
        (x % 256)
      ≡ x
shift_in-word_bytes x small = omega arith

-- If these four bytes are next, the number is read, wherever the buffer runs out between them.
getword-bytes :
    (x : ℕ) (c : InChannel) (s : Source) {bs : Bytes}
    → x < 2 ^ 32
    → unread c s ≡ word_bytes x ++ bs
    → c.curr ≤ length c.buff
    → Benign s.answers
    → (c' : InChannel) × (s' : Source) × (caml_getword true c s ≡ ok (x, c', s'))
      × (unread c' s' ≡ bs)
unfolding caml_getword
getword-bytes x c s {bs} small there inside benign =
    let (c₁, s₁, one) = getch-Next c s there inside benign in
    let (c₂, s₂, two) = getch-Next c₁ s₁ one.rest one.inside one.benign in
    let (c₃, s₃, three) = getch-Next c₂ s₂ two.rest two.inside two.benign in
    let (c₄, s₄, four) = getch-Next c₃ s₃ three.rest three.inside three.benign in
    (c₄, s₄, rw (one.ran, two.ran, three.ran, four.ran, shift_in-word_bytes x small), four.rest)

-- Over a system that takes something each time, `caml_putword` of a number of 32 bits and
-- `caml_flush`, on a binary channel that buffers nothing, come back, and some bytes have left behind
-- what had left before. On a binary channel on which these bytes are next, any first part of them in
-- its buffer, over a system that gives something each time, `caml_getword` returns the number, and
-- leaves what comes after the bytes to be read.
pub caml_getword-caml_putword :
    (x : ℕ) (out : Channel) (w : World) (c : InChannel) (s : Source) (bs : Bytes)
    → x < 2 ^ 32
    → out.buffered ≡ []
    → Delivery.Benign w.answers
    → Benign s.answers
    → (out' : Channel) × (w' : World) × (file : Bytes) × ((caml_putword true x out w
          >>= λ (out₁, w₁). caml_flush out₁ w₁)
        ≡ ok (out', w'))
      × (w'.sink ≡ w.sink ++ file)
      × ((k : ℕ)
          → (c' : InChannel) × (s' : Source) × (caml_getword true
                (record c { buff = take k file; curr = 0 })
                (record s { incoming = drop k file ++ bs })
              ≡ ok (x, c', s'))
            × (unread c' s' ≡ bs))
caml_getword-caml_putword x out w c s bs small idle takes gives =
    let bytes = word_bytes x in
    let empty : length out.buffered ≤ 4096 = rw idle (omega arith) in
    let (out₁, w₁, put, one) = caml_putword-Puts x out w empty takes in
    let (out₂, w₂, flushed, two, none_left) = caml_flush-Delivered out₁ w₁ one.bounded one.benign in
    let both = Delivered-trans bytes [] out out₁ out₂ w w₁ w₂ one two in
    let nil = nil_of_length {0} out₂.buffered none_left in
    let left : w₂.sink ≡ w.sink ++ bytes =
      sym (append-nil w₂.sink)
      ∙ ap (λ (b : Bytes). w₂.sink ++ b) (sym nil)
      ∙ both.sent
      ∙ ap (λ (b : Bytes). (w.sink ++ b) ++ bytes) idle
      ∙ ap (λ (b : Bytes). b ++ bytes) (append-nil w.sink) in
    (
      out₂,
      w₂,
      bytes,
      rw put flushed,
      left,
      λ k.
          getword-bytes x (record c { buff = take k bytes; curr = 0 })
            (record s { incoming = drop k bytes ++ bs }) {bs = bs} small
            (sym (append_assoc (take k bytes) (drop k bytes) bs)
              ∙ ap (λ (b : Bytes). b ++ bs) (take-append-drop {0} k bytes))
            (omega arith) gives,
    )
