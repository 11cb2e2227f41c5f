-- ===== src/Runtime/Channel/Puts.antt =====
-- The operations that put bytes into an output channel.
use multi_script.Prelude.{
  ℕ, zero, suc, ◌+◌, ◌-◌, ◌/◌, ◌%◌, ◌^◌, ◌≤◌, ◌<◌, ◌≡◌, refl, ap, sym, ◌∙◌, true, false, [], ◌∷◌,
  ◌++◌, append_assoc, append-nil, Bytes, ◌==◌, length, length-append, length-take, length-drop,
  take, drop, take-append-drop, ltb, leb, arith, Bool-cases, inl, inr,
}
use Prim.Native.Nat.{min}
use mathlib.Core.Path.{subst}
use multi_script.Outcome.{Outcome, ok}
use multi_script.Runtime.Channel.{
  World, Channel, putch, caml_putword, caml_putblock, putblock_loop, caml_really_putblock,
  io_buffer_size, int_max,
}
use multi_script.Runtime.Channel.Delivery.{
  Benign, do_write-Written, Delivered, Delivered-trans, caml_flush_partial-Delivered,
}

append_byte :
    (b : ℕ) (c : Channel) (w : World)
    → length c.buffered < 4096
    → Benign w.answers
    → Delivered (b ∷ []) c w (record c { buffered = c.buffered ++ b ∷ [] }) w
append_byte b c w room benign = record {
  sent = sym (append_assoc w.sink c.buffered (b ∷ []));
  position = omega (arith, length-append {0} c.buffered (b ∷ []));
  bounded = omega (arith, length-append {0} c.buffered (b ∷ []));
  benign = benign;
}

-- The shape of a theorem on an operation: it comes back, and puts these bytes.
abbrev pub Puts : Bytes → Channel → World → Outcome (Channel × World) → Type 0
Puts bs c w r = (c' : Channel) × (w' : World) × (r ≡ ok (c', w')) × Delivered bs c w c' w'

putch-Puts :
    (ch : ℕ) (c : Channel) (w : World)
    → length c.buffered ≤ 4096
    → Benign w.answers
    → Puts (ch % 256 ∷ []) c w (putch ch c w)
unfolding putch
putch-Puts ch c w fits benign = elim (Bool-cases (leb io_buffer_size (length c.buffered))) [
  | inl full ↦
      let (c₁, w₁, ran, one, less) = caml_flush_partial-Delivered c w fits benign in
      (
        record c₁ { buffered = c₁.buffered ++ ch % 256 ∷ [] },
        w₁,
        rw (full, ran),
        Delivered-trans [] (ch % 256 ∷ []) c c₁ _ w w₁ w₁ one
            (append_byte (ch % 256) c₁ w₁ (omega (arith, less)) one.benign),
      )
  | inr room ↦ (
    record c { buffered = c.buffered ++ ch % 256 ∷ [] },
    w,
    rw room,
    append_byte (ch % 256) c w (ground arith) benign,
  )
]

-- The four bytes of a number of 32 bits, its high byte first.
abbrev pub word_bytes : ℕ → Bytes
word_bytes x = x / 2 ^ 24 % 256 ∷ x / 2 ^ 16 % 256 ∷ x / 2 ^ 8 % 256 ∷ x % 256 ∷ []

-- `caml_putword` on a binary channel over a system that takes something each time puts the four
-- bytes of the number, its high byte first, whether or not the buffer fills up between them.
pub caml_putword-Puts :
    (x : ℕ) (c : Channel) (w : World)
    → length c.buffered ≤ 4096
    → Benign w.answers
    → Puts (word_bytes x) c w (caml_putword true x c w)
unfolding caml_putword
caml_putword-Puts x c w fits benign =
    let (c₁, w₁, ran₁, one) = putch-Puts (x / 2 ^ 24) c w fits benign in
    let (c₂, w₂, ran₂, two) = putch-Puts (x / 2 ^ 16) c₁ w₁ one.bounded one.benign in
    let (c₃, w₃, ran₃, three) = putch-Puts (x / 2 ^ 8) c₂ w₂ two.bounded two.benign in
    let (c₄, w₄, ran₄, four) = putch-Puts x c₃ w₃ three.bounded three.benign in
    (
      c₄,
      w₄,
      rw (ran₁, ran₂, ran₃) ran₄,
      Delivered-trans _ (x % 256 ∷ []) c c₃ c₄ w w₃ w₄
          (Delivered-trans _ (x / 2 ^ 8 % 256 ∷ []) c c₂ c₃ w w₂ w₃
            (Delivered-trans (x / 2 ^ 24 % 256 ∷ []) (x / 2 ^ 16 % 256 ∷ []) c c₁ c₂ w w₁ w₂ one
              two)
            three)
          four,
    )

-- One round: it takes over some bytes, all of them if they fit with room to spare; if not, the
-- buffer is not full after it, and it took over something unless the buffer was full before.
record Round (p : Bytes) (c : Channel) (w : World) (k : ℕ) (c' : Channel) (w' : World)
    : Type 0 where
  delivered : Delivered (take k p) c w c' w'
  room : length c'.buffered < 4096
  progress : length (drop k p) ≤ length p - 1 + (length c.buffered - 4095)

caml_putblock-Round :
    (p : Bytes) (c : Channel) (w : World)
    → 0 < length p
    → length c.buffered ≤ 4096
    → Benign w.answers
    → (k : ℕ) × (c' : Channel) × (w' : World) × (caml_putblock p c w ≡ ok (k, c', w'))
      × Round p c w k c' w'
unfolding caml_putblock
caml_putblock-Round p c w some_left fits benign =
    let n = min (length p) int_max in
    let free = io_buffer_size - length c.buffered in
    elim (Bool-cases (ltb n free)) [
      | inl small ↦
          let taken = length-take {0} n p in
          let left = length-drop {0} n p in
          let sum = length-append {0} c.buffered (take n p) in
          let short : n < free = ground arith in
          (
            n,
            record c { buffered = c.buffered ++ take n p },
            w,
            rw small,
            record {
              delivered = record {
                sent = sym (append_assoc w.sink c.buffered (take n p));
                position = omega (arith, sum);
                bounded = omega (arith, sum, taken, short);
                benign = benign;
              };
              room = omega (arith, sum, taken, short);
              progress = omega (arith, left);
            },
          )
      | inr large ↦
          let full = c.buffered ++ take free p in
          let (k, w', ran, is) = do_write-Written c.fd full io_buffer_size w (omega arith) benign in
          let much : free ≤ n = ground arith in
          let taken = length-take {0} free p in
          let sum = length-append {0} c.buffered (take free p) in
          let left = length-drop {0} k full in
          (
            free,
            record c { offset = c.offset + k; buffered = drop k full },
            w',
            rw (large, ran),
            record {
              delivered = record {
                sent =
                    ap (λ (b : Bytes). b ++ drop k full) is.sent
                    ∙ append_assoc w.sink (take k full) (drop k full)
                    ∙ ap (λ (b : Bytes). w.sink ++ b) (take-append-drop {0} k full)
                    ∙ sym (append_assoc w.sink c.buffered (take free p));
                position = omega (arith, sum, left, taken, much, is.within);
                bounded = omega (arith, sum, left, taken, much);
                benign = is.benign;
              };
              room = omega (arith, sum, left, taken, much, is.progress);
              progress = omega (arith, length-drop {0} free p);
            },
          )
    ]

nothing_put :
    (c : Channel) (w : World) → length c.buffered ≤ 4096 → Benign w.answers → Delivered [] c w c w
nothing_put c w fits benign = record {
  sent = sym (append-nil (w.sink ++ c.buffered));
  position = omega arith;
  bounded = fits;
  benign = benign;
}

putblock_loop-Puts :
    (fuel : ℕ) (p : Bytes) (c : Channel) (w : World)
    → length p + (length c.buffered - 4095) ≤ fuel
    → length c.buffered ≤ 4096
    → Benign w.answers
    → Puts p c w (putblock_loop fuel p c w)
unfolding putblock_loop
putblock_loop-Puts zero [] c w enough fits benign = (c, w, refl, nothing_put c w fits benign)
putblock_loop-Puts (suc fuel) [] c w enough fits benign = (c, w, refl, nothing_put c w fits benign)
putblock_loop-Puts zero (x ∷ p) c w enough fits benign = absurd (omega arith)
putblock_loop-Puts (suc fuel) (x ∷ p) c w enough fits benign =
    let (k, c₁, w₁, ran, is) = caml_putblock-Round (x ∷ p) c w (omega arith) fits benign in
    let (c₂, w₂, rest, two) =
      putblock_loop-Puts fuel (drop k (x ∷ p)) c₁ w₁ (omega (arith, is.progress, is.room))
        is.delivered.bounded is.delivered.benign in
    let some_left : (length (x ∷ p) == 0) ≡ false = ground arith in
    let both = Delivered-trans _ _ c c₁ c₂ w w₁ w₂ is.delivered two in
    (
      c₂,
      w₂,
      rw (some_left, ran) rest,
      subst (λ (bs : Bytes). Delivered bs c w c₂ w₂) (take-append-drop {0} k (x ∷ p)) both,
    )

-- `caml_really_putblock` of any bytes, into a channel whose buffer is no longer than it may be, over
-- a system that takes something each time, comes back, and puts exactly these bytes.
pub caml_really_putblock-Puts :
    (p : Bytes) (c : Channel) (w : World)
    → length c.buffered ≤ 4096
    → Benign w.answers
    → Puts p c w (caml_really_putblock p c w)
unfolding caml_really_putblock
caml_really_putblock-Puts p c w fits benign =
    putblock_loop-Puts (suc (length p)) p c w (omega arith) fits benign
