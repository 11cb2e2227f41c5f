-- ===== src/Runtime/Channel/Input/Receipt.antt =====
-- What comes out of an input channel is what the system has to give, whole and in order, however it
-- cuts the reads.
use multi_script.Prelude.{
  ℕ, zero, suc, ◌+◌, ◌-◌, ◌≤◌, ◌<◌, ◌≡◌, ◌⊎◌, refl, ap, sym, ◌∙◌, List, [], ◌∷◌, ◌++◌, append_assoc,
  Bytes, length, length-take, length-drop, take, drop, take-append-drop, ltb, leb, drop-length,
  nil_of_length, arith, Bool-cases, inl, inr,
}
use Prim.Native.Nat.{min}
use multi_script.Outcome.{ok}
use multi_script.Runtime.Channel.{io_buffer_size, int_max}
use multi_script.Runtime.Channel.Input.{
  Answer, delivered, interrupted, failed, Source, InChannel, read_again, caml_do_read,
  caml_getblock,
}

pub take-append :
    (n : ℕ) (xs ys : Bytes) → length xs ≤ n → take n (xs ++ ys) ≡ xs ++ take (n - length xs) ys
take-append n [] ys le = ap (λ (k : ℕ). take {0} {A = ℕ} k ys) (omega arith)
take-append zero (x ∷ xs) ys le = absurd (omega arith)
take-append (suc n) (x ∷ xs) ys le =
    ap (λ (bs : Bytes). x ∷ bs)
      (take-append n xs ys (omega arith)
        ∙ ap (λ (k : ℕ). xs ++ take {0} {A = ℕ} k ys) (omega arith))

pub drop-append :
    (n : ℕ) (xs ys : Bytes) → length xs ≤ n → drop n (xs ++ ys) ≡ drop (n - length xs) ys
drop-append n [] ys le = ap (λ (k : ℕ). drop {0} {A = ℕ} k ys) (omega arith)
drop-append zero (x ∷ xs) ys le = absurd (omega arith)
drop-append (suc n) (x ∷ xs) ys le =
    drop-append n xs ys (omega arith) ∙ ap (λ (k : ℕ). drop {0} {A = ℕ} k ys) (omega arith)

drop-nil : (n : ℕ) → drop {0} {A = ℕ} n [] ≡ []
drop-nil zero = refl
drop-nil (suc n) = refl

drop-drop : (m n : ℕ) (xs : Bytes) → drop n (drop m xs) ≡ drop (m + n) xs
drop-drop zero n xs = ap (λ (k : ℕ). drop {0} {A = ℕ} k xs) (omega arith)
drop-drop (suc m) n [] = drop-nil n ∙ sym (drop-nil (suc m + n))
drop-drop (suc m) n (x ∷ xs) =
    let same : suc (m + n) ≡ suc m + n = omega arith in
    drop-drop m n xs ∙ ap (λ (k : ℕ). drop {0} {A = ℕ} k (x ∷ xs)) same

-- The system gives something each time, as long as there is something, if not interrupted.
abbrev pub Benign : List Answer → Type 0
Benign [] = Unit
Benign (delivered k ∷ later) = Benign later
Benign (interrupted ∷ later) = Benign later
Benign (failed ∷ later) = ⊥

-- The bytes that are still to come out of the channel.
abbrev pub unread : InChannel → Source → Bytes
unread c s = drop c.curr c.buff ++ s.incoming

-- A read of up to `n` bytes gave these.
pub record Given (n : ℕ) (s : Source) (bytes : Bytes) (s' : Source) : Type 0 where
  pub split : s.incoming ≡ bytes ++ s'.incoming
  pub within : length bytes ≤ n
  pub progress : (0 < length bytes) ⊎ (length s.incoming ≡ 0)
  pub benign : Benign s'.answers

Given-take :
    (n k : ℕ) (later : List Answer) (s : Source)
    → 0 < k
    → k ≤ n
    → Benign later
    → Given n s (take k s.incoming) (record s { answers = later; incoming = drop k s.incoming })
Given-take n k later s pos le benign = record {
  split = sym (take-append-drop {0} k s.incoming);
  within = omega (arith, length-take {0} k s.incoming);
  progress = ground (arith, length-take {0} k s.incoming);
  benign = benign;
}

pub read_again-Given :
    (later : List Answer) (n : ℕ) (s : Source)
    → 0 < n
    → Benign later
    → (bytes : Bytes) × (s' : Source) × (read_again later n s ≡ ok (bytes, s')) × Given n s bytes s'
unfolding read_again
read_again-Given [] n s pos benign = (_, _, refl, Given-take n n [] s pos (omega arith) tt)
read_again-Given (delivered k ∷ later) n s pos benign =
    (_, _, refl, Given-take n (min (suc k) n) later s (omega arith) (omega arith) benign)
read_again-Given (interrupted ∷ later) n s pos benign = read_again-Given later n s pos benign
read_again-Given (failed ∷ later) n s pos benign = absurd benign

-- A block of up to `n` bytes came out: the next ones, and none only if there are none.
pub record Got (n : ℕ) (c : InChannel) (s : Source) (got : Bytes) (c' : InChannel) (s' : Source)
    : Type 0 where
  pub split : unread c s ≡ got ++ unread c' s'
  pub within : length got ≤ n
  pub progress : (0 < length got) ⊎ (length (unread c s) ≡ 0)
  pub inside : c'.curr ≤ length c'.buff
  pub benign : Benign s'.answers

pub caml_getblock-Got :
    (n : ℕ) (c : InChannel) (s : Source)
    → 0 < n
    → c.curr ≤ length c.buff
    → Benign s.answers
    → (got : Bytes) × (c' : InChannel) × (s' : Source) × (caml_getblock n c s ≡ ok (got, c', s'))
      × Got n c s got c' s'
unfolding caml_getblock caml_do_read
caml_getblock-Got n c s pos inside benign =
    let m = min n int_max in
    let ahead = drop c.curr c.buff in
    let there = length-drop {0} c.curr c.buff in
    elim (Bool-cases (leb m (length c.buff - c.curr))) [
      | inl enough ↦
          let le : m ≤ length c.buff - c.curr = ground arith in
          let taken = length-take {0} m ahead in
          (
            take m ahead,
            record c { curr = c.curr + m },
            s,
            rw enough,
            record {
              split =
                  ap (λ (b : Bytes). b ++ s.incoming) (sym (take-append-drop {0} m ahead))
                  ∙ append_assoc (take m ahead) (drop m ahead) s.incoming
                  ∙ ap (λ (b : Bytes). take m ahead ++ (b ++ s.incoming))
                      (drop-drop c.curr m c.buff);
              within = omega (arith, taken);
              progress = inl (omega (arith, taken, there));
              inside = omega arith;
              benign = benign;
            },
          )
      | inr short ↦ elim (Bool-cases (ltb 0 (length c.buff - c.curr))) [
        | inl some_left ↦
            let less : length c.buff - c.curr < m = ground arith in
            let over : c.curr + (length c.buff - c.curr) ≡ length c.buff = omega arith in
            let gone : drop (c.curr + (length c.buff - c.curr)) c.buff ≡ [] =
              ap (λ (k : ℕ). drop {0} {A = ℕ} k c.buff) over ∙ drop-length {0} c.buff in
            (
              ahead,
              record c { curr = c.curr + (length c.buff - c.curr) },
              s,
              rw (short, some_left),
              record {
                split = ap (λ (b : Bytes). ahead ++ (b ++ s.incoming)) (sym gone);
                within = omega (arith, less, there);
                progress = inl (ground (arith, there));
                inside = omega arith;
                benign = benign;
              },
            )
        | inr empty ↦
            let (bytes, s', ran, given) =
              read_again-Given s.answers io_buffer_size s (omega arith) benign in
            let k = min m (length bytes) in
            let taken = length-take {0} k bytes in
            let fresh : unread c s ≡ s.incoming =
              ap (λ (b : Bytes). b ++ s.incoming)
                (nil_of_length {0} ahead (ground (arith, there))) in
            (
              take k bytes,
              record c { offset = c.offset + length bytes; buff = bytes; curr = k },
              s',
              rw (short, empty, ran),
              record {
                split =
                    fresh
                    ∙ given.split
                    ∙ ap (λ (b : Bytes). b ++ s'.incoming) (sym (take-append-drop {0} k bytes))
                    ∙ append_assoc (take k bytes) (drop k bytes) s'.incoming;
                within = omega (arith, taken);
                progress = elim given.progress [
                  | inl some_given ↦ inl (omega (arith, taken))
                  | inr none_given ↦ inr (ap (length {0} {A = ℕ}) fresh ∙ none_given)
                ];
                inside = omega arith;
                benign = given.benign;
              },
            )
      ]
    ]
