-- ===== src/Runtime/Channel/Input/Seek.antt =====
-- Seeking in an input channel over a file.
use multi_script.Prelude.{
  ℕ, zero, suc, ◌+◌, ◌-◌, ◌≤◌, ◌≡◌, refl, ap, sym, ◌∙◌, Option, some, [], ◌∷◌, ◌++◌, Bytes, length,
  length-take, take, drop, take-append-drop, leb, arith, Bool-cases, inl, inr, ◌&&◌,
}
use multi_script.Outcome.{ok}
use multi_script.Runtime.Channel.Input.{Source, InChannel, caml_seek_in, caml_pos_in}
use multi_script.Runtime.Channel.Input.Receipt.{unread, drop-append}

-- The buffer and what is still to be read stand next to each other in the file, and the offset is
-- the position between them.
pub record InFile (file : Bytes) (c : InChannel) (s : Source) : Type 0 where
  pub before : Bytes
  pub split : file ≡ before ++ (c.buff ++ s.incoming)
  pub at : c.offset ≡ length before + length c.buff
  pub inside : c.curr ≤ length c.buff

drop-append_front : (n : ℕ) (xs ys : Bytes) → n ≤ length xs → drop n (xs ++ ys) ≡ drop n xs ++ ys
drop-append_front zero xs ys le = refl
drop-append_front (suc n) [] ys le = absurd (omega arith)
drop-append_front (suc n) (x ∷ xs) ys le = drop-append_front n xs ys (omega arith)

-- Seeking to a position of the file, whether it lies in the buffer or takes a seek of the system,
-- which is to go well then: the position is the one that was asked for, the bytes to come are those
-- of the file from there on, and the channel stands in the file as before.
pub caml_seek_in-InFile :
    (lseek : ℕ → Source → Option Source) (file : Bytes) (dest : ℕ) (c : InChannel) (s s' : Source)
    → InFile file c s
    → dest ≤ length file
    → lseek dest s ≡ some s'
    → s'.incoming ≡ drop dest file
    → (c'' : InChannel) × (s'' : Source) × (caml_seek_in lseek dest c s ≡ ok (c'', s''))
      × (caml_pos_in c'' ≡ dest)
      × (unread c'' s'' ≡ drop dest file)
      × InFile file c'' s''
unfolding caml_seek_in caml_pos_in
caml_seek_in-InFile lseek file dest c s s' is le sought rest =
    elim (Bool-cases (leb c.offset (dest + length c.buff) && leb dest c.offset)) [
      | inl near ↦
          let low : c.offset ≤ dest + length c.buff = ground arith in
          let high : dest ≤ c.offset = ground arith in
          let k = length c.buff - (c.offset - dest) in
          let place : dest - length is.before ≡ k = omega (arith, is.at, low, high) in
          (
            record c { curr = k },
            s,
            rw near,
            omega (arith, low, high),
            sym (
                ap (drop {0} {A = ℕ} dest) is.split
                ∙ drop-append dest is.before (c.buff ++ s.incoming) (omega (arith, is.at, low))
                ∙ ap (λ (n : ℕ). drop {0} {A = ℕ} n (c.buff ++ s.incoming)) place
                ∙ drop-append_front k c.buff s.incoming (omega arith)),
            record { before = is.before; split = is.split; at = is.at; inside = omega arith },
          )
      | inr far ↦ (
        record c { offset = dest; buff = []; curr = 0 },
        s',
        rw (far, sought),
        omega arith,
        rest,
        record {
          before = take dest file;
          split =
              sym (take-append-drop {0} dest file)
              ∙ ap (λ (b : Bytes). take dest file ++ b) (sym rest);
          at = omega (arith, length-take {0} dest file);
          inside = omega arith;
        },
      )
    ]
