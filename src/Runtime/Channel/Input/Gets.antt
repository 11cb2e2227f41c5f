-- ===== src/Runtime/Channel/Input/Gets.antt =====
-- The operations that get bytes from an input channel.
use multi_script.Prelude.{
  ℕ, zero, suc, ◌-◌, ◌≤◌, ◌≡◌, refl, ap, sym, ◌∙◌, Bool, true, false, [], ◌++◌, Bytes, ◌==◌, length,
  length-append, take, drop, leb, nil_of_length, arith, Bool-cases, inl, inr,
}
use multi_script.Outcome.{ok}
use multi_script.Runtime.Channel.Input.{Source, InChannel, getblock_loop, caml_really_getblock}
use multi_script.Runtime.Channel.Input.Receipt.{
  Benign, unread, caml_getblock-Got, take-append, drop-append,
}

-- The end of a read of `n` bytes: whether all of them came, what came, and what is left.
pub record Read (n : ℕ) (c : InChannel) (s : Source) (all : Bool) (got : Bytes) (c' : InChannel)
    (s' : Source) : Type 0 where
  pub complete : all ≡ leb n (length (unread c s))
  pub first : got ≡ take n (unread c s)
  pub rest : unread c' s' ≡ drop n (unread c s)
  pub inside : c'.curr ≤ length c'.buff
  pub benign : Benign s'.answers

nothing-Read :
    (c : InChannel) (s : Source)
    → c.curr ≤ length c.buff
    → Benign s.answers
    → Read 0 c s true [] c s
nothing-Read c s inside benign = record {
  complete = ground arith;
  first = refl;
  rest = refl;
  inside = inside;
  benign = benign;
}

getblock_loop-Read :
    (fuel n : ℕ) (c : InChannel) (s : Source)
    → n ≤ fuel
    → c.curr ≤ length c.buff
    → Benign s.answers
    → (all : Bool) × (got : Bytes) × (c' : InChannel) × (s' : Source) × (getblock_loop fuel n c s
        ≡ ok (all, got, c', s'))
      × Read n c s all got c' s'
unfolding getblock_loop
getblock_loop-Read zero zero c s enough inside benign =
    (true, [], c, s, refl, nothing-Read c s inside benign)
getblock_loop-Read (suc fuel) zero c s enough inside benign =
    (true, [], c, s, refl, nothing-Read c s inside benign)
getblock_loop-Read zero (suc n) c s enough inside benign = absurd (omega arith)
getblock_loop-Read (suc fuel) (suc n) c s enough inside benign =
    let wanted : (suc n == 0) ≡ false = ground arith in
    let (got, c₁, s₁, ran, is) = caml_getblock-Got (suc n) c s (omega arith) inside benign in
    let sum = length-append {0} got (unread c₁ s₁) in
    let whole = ap (length {0} {A = ℕ}) is.split in
    elim (Bool-cases (length got == 0)) [
      | inl none_got ↦
          let zero_long : length got ≡ 0 = ground arith in
          let dry : length (unread c s) ≡ 0 = elim is.progress [
            | inl pos ↦ absurd (omega (arith, pos, zero_long))
            | inr none_left ↦ none_left
          ] in
          let nil = nil_of_length {0} (unread c s) dry in
          let still_nil = nil_of_length {0} (unread c₁ s₁) (omega (arith, dry, whole, sum)) in
          (
            false,
            [],
            c₁,
            s₁,
            rw (wanted, ran, none_got),
            record {
              complete = ground (arith, dry);
              first = sym (ap (take {0} {A = ℕ} (suc n)) nil);
              rest = still_nil ∙ sym (ap (drop {0} {A = ℕ} (suc n)) nil);
              inside = is.inside;
              benign = is.benign;
            },
          )
      | inr some_got ↦
          let (all, more, c₂, s₂, rest, two) =
            getblock_loop-Read fuel (suc n - length got) c₁ s₁ (ground (arith, is.within)) is.inside
              is.benign in
          (
            all,
            got ++ more,
            c₂,
            s₂,
            rw (wanted, ran, some_got, rest),
            record {
              complete = two.complete ∙ ground (arith, sum, whole, is.within);
              first =
                  ap (λ (b : Bytes). got ++ b) two.first
                  ∙ sym (take-append (suc n) got (unread c₁ s₁) is.within)
                  ∙ ap (take {0} {A = ℕ} (suc n)) (sym is.split);
              rest =
                  two.rest
                  ∙ sym (drop-append (suc n) got (unread c₁ s₁) is.within)
                  ∙ ap (drop {0} {A = ℕ} (suc n)) (sym is.split);
              inside = two.inside;
              benign = two.benign;
            },
          )
    ]

-- `caml_really_getblock` of any number of bytes, over a system that gives something each time as
-- long as there is something, comes back with the next bytes of the input, all of them if there are
-- enough, and else those that there are; it says which, and leaves the bytes after them to be read.
pub caml_really_getblock-Read :
    (n : ℕ) (c : InChannel) (s : Source)
    → c.curr ≤ length c.buff
    → Benign s.answers
    → (all : Bool) × (got : Bytes) × (c' : InChannel) × (s' : Source) × (caml_really_getblock n c s
        ≡ ok (all, got, c', s'))
      × Read n c s all got c' s'
unfolding caml_really_getblock
caml_really_getblock-Read n c s inside benign =
    getblock_loop-Read n n c s (omega arith) inside benign
