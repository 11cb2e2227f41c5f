-- ===== src/Runtime/Channel/Delivery.antt =====
-- What is put into an output channel leaves it whole and in order, however the system cuts the writes.
use multi_script.Prelude.{
  true, ℕ, zero, suc, ◌+◌, ◌-◌, ◌≤◌, ◌<◌, ◌≡◌, refl, ap, sym, ◌∙◌, List, [], ◌∷◌, ◌++◌,
  append_assoc, append-nil, Bytes, ◌==◌, ◌&&◌, ◌||◌, length, length-append, length-drop, take, drop,
  take-append-drop, take-length, drop-length, ltb, arith, Bool-cases, inl, inr,
}
use Prim.Native.Nat.{min}
use multi_script.Outcome.{ok}
use multi_script.Runtime.Channel.{
  Answer, accepted, interrupted, would_block, failed, World, Channel, write_again, do_write,
  caml_flush_partial, flush_loop, caml_flush,
}

-- The system takes something each time, if not interrupted.
abbrev pub Benign : List Answer → Type 0
Benign [] = Unit
Benign (accepted k ∷ later) = Benign later
Benign (interrupted ∷ later) = Benign later
Benign (would_block ∷ later) = ⊥
Benign (failed ∷ later) = ⊥

-- A write of `n` bytes took `k` of them.
pub record Written (p : Bytes) (n : ℕ) (w : World) (k : ℕ) (w' : World) : Type 0 where
  pub progress : 0 < k
  pub within : k ≤ n
  pub sent : w'.sink ≡ w.sink ++ take k p
  pub benign : Benign w'.answers

write_again-Written :
    (later : List Answer) (p : Bytes) (n : ℕ) (w : World)
    → 0 < n
    → Benign later
    → (k : ℕ) × (w' : World) × (write_again later p n w ≡ ok (k, w')) × Written p n w k w'
unfolding write_again
write_again-Written [] p n w pos benign = (
  n,
  record w { answers = []; sink = w.sink ++ take n p },
  refl,
  record { progress = pos; within = omega arith; sent = refl; benign = tt },
)
write_again-Written (accepted k ∷ later) p n w pos benign = (
  min (suc k) n,
  record w { answers = later; sink = w.sink ++ take (min (suc k) n) p },
  refl,
  record { progress = omega arith; within = omega arith; sent = refl; benign = benign },
)
write_again-Written (interrupted ∷ later) p n w pos benign =
    write_again-Written later p n w pos benign
write_again-Written (would_block ∷ later) p n w pos benign = absurd benign
write_again-Written (failed ∷ later) p n w pos benign = absurd benign

pub do_write-Written :
    (fd : ℕ) (p : Bytes) (n : ℕ) (w : World)
    → 0 < n
    → Benign w.answers
    → (k : ℕ) × (w' : World) × (do_write fd p n w ≡ ok (k, w')) × Written p n w k w'
unfolding do_write
do_write-Written fd p n w pos benign = elim (Bool-cases ((fd == 1 || fd == 2) && w.stdout_func)) [
  | inl hooked ↦ (
    n,
    record w { sink = w.sink ++ take n p; calls = w.calls ++ (fd, take n p) ∷ [] },
    rw hooked,
    record { progress = pos; within = omega arith; sent = refl; benign = benign },
  )
  | inr system ↦
      let (k, w', ran, is) = write_again-Written w.answers p n w pos benign in
      (k, w', rw system ran, is)
]

-- These bytes went in: what left and what is still buffered has grown by them at its end, and the
-- position by their number, and the buffer is no longer than it may be.
pub record Delivered (bs : Bytes) (c : Channel) (w : World) (c' : Channel) (w' : World)
    : Type 0 where
  pub sent : w'.sink ++ c'.buffered ≡ (w.sink ++ c.buffered) ++ bs
  pub position : c'.offset + length c'.buffered ≡ (c.offset + length c.buffered) + length bs
  pub bounded : length c'.buffered ≤ 4096
  pub benign : Benign w'.answers

pub Delivered-trans :
    (bs cs : Bytes) (c c₁ c₂ : Channel) (w w₁ w₂ : World)
    → Delivered bs c w c₁ w₁
    → Delivered cs c₁ w₁ c₂ w₂
    → Delivered (bs ++ cs) c w c₂ w₂
Delivered-trans bs cs c c₁ c₂ w w₁ w₂ one two = record {
  sent =
      two.sent ∙ ap (λ (b : Bytes). b ++ cs) one.sent ∙ append_assoc (w.sink ++ c.buffered) bs cs;
  position = omega (arith, one.position, two.position, length-append {0} bs cs);
  bounded = two.bounded;
  benign = two.benign;
}

pub caml_flush_partial-Delivered :
    (c : Channel) (w : World)
    → length c.buffered ≤ 4096
    → Benign w.answers
    → (c' : Channel) × (w' : World) × (caml_flush_partial c w
        ≡ ok (length c'.buffered == 0, c', w'))
      × Delivered [] c w c' w'
      × (length c'.buffered ≤ length c.buffered - 1)
unfolding caml_flush_partial
caml_flush_partial-Delivered c w fits benign = elim (Bool-cases (ltb 0 (length c.buffered))) [
  | inl some_left ↦
      let (k, w', ran, is) =
        do_write-Written c.fd c.buffered (length c.buffered) w (ground arith) benign in
      let left = length-drop {0} k c.buffered in
      (
        record c { offset = c.offset + k; buffered = drop k c.buffered },
        w',
        rw (some_left, ran),
        record {
          sent =
              ap (λ (b : Bytes). b ++ drop k c.buffered) is.sent
              ∙ append_assoc w.sink (take k c.buffered) (drop k c.buffered)
              ∙ ap (λ (b : Bytes). w.sink ++ b) (take-append-drop {0} k c.buffered)
              ∙ sym (append-nil (w.sink ++ c.buffered));
          position = omega (arith, left, is.within);
          bounded = omega (arith, left);
          benign = is.benign;
        },
        omega (arith, left, is.progress),
      )
  | inr nothing ↦
      let none_left : length c.buffered ≡ 0 = ground arith in
      (
        c,
        w,
        rw (nothing, none_left),
        record {
          sent = sym (append-nil (w.sink ++ c.buffered));
          position = omega arith;
          bounded = fits;
          benign = benign;
        },
        omega arith,
      )
]

flush_loop-Delivered :
    (fuel : ℕ) (c : Channel) (w : World)
    → length c.buffered < fuel
    → length c.buffered ≤ 4096
    → Benign w.answers
    → (c' : Channel) × (w' : World) × (flush_loop fuel c w ≡ ok (c', w'))
      × Delivered [] c w c' w'
      × (length c'.buffered ≡ 0)
unfolding flush_loop
flush_loop-Delivered zero c w enough fits benign = absurd (omega arith)
flush_loop-Delivered (suc fuel) c w enough fits benign =
    let (c₁, w₁, ran, one, less) = caml_flush_partial-Delivered c w fits benign in
    elim (Bool-cases (length c₁.buffered == 0)) [
      | inl empty ↦ (c₁, w₁, rw (ran, empty), one, ground arith)
      | inr more ↦
          let some_left : 0 < length c₁.buffered = ground arith in
          let (c₂, w₂, rest, two, none_left) =
            flush_loop-Delivered fuel c₁ w₁ (omega (arith, less)) one.bounded one.benign in
          (c₂, w₂, rw (ran, more) rest, Delivered-trans [] [] c c₁ c₂ w w₁ w₂ one two, none_left)
    ]

-- `caml_flush` of a channel whose buffer is no longer than it may be, over a system that takes
-- something each time, ends with the buffer empty: the bytes that left are those that had left
-- before, and then those that were buffered.
pub caml_flush-Delivered :
    (c : Channel) (w : World)
    → length c.buffered ≤ 4096
    → Benign w.answers
    → (c' : Channel) × (w' : World) × (caml_flush c w ≡ ok (c', w'))
      × Delivered [] c w c' w'
      × (length c'.buffered ≡ 0)
unfolding caml_flush
caml_flush-Delivered c w fits benign =
    flush_loop-Delivered (suc (length c.buffered)) c w (omega arith) fits benign

-- While the hook is set, `caml_flush` of a channel on the standard output or error that buffers
-- something calls the hook once, with the whole buffer, whatever the system would answer, and ends
-- with the buffer empty.
pub caml_flush-hooked :
    (c : Channel) (w : World)
    → 0 < length c.buffered
    → ((c.fd == 1 || c.fd == 2) && w.stdout_func) ≡ true
    → caml_flush c w
      ≡ ok (
        record c { offset = c.offset + length c.buffered; buffered = [] },
        record w { sink = w.sink ++ c.buffered; calls = w.calls ++ (c.fd, c.buffered) ∷ [] },
      )
unfolding caml_flush flush_loop caml_flush_partial do_write
caml_flush-hooked c w filled hooked =
    let all = take-length {0} c.buffered in
    let none_left = drop-length {0} c.buffered in
    let some_left : ltb 0 (length c.buffered) ≡ true = ground arith in
    rw (some_left, hooked, all, none_left)
