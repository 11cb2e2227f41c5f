-- ===== src/Tests/InputRuns.antt =====
-- The theorems on input channels at concrete inputs.
use multi_script.Prelude.{
  ℕ, drop, take, ◌++◌, some, ◌≡◌, refl, Bool, true, false, [], ◌∷◌, arith, Bytes, codes,
}
use multi_script.Outcome.{ok, ◌>>=◌}
use multi_script.Runtime.Channel
use multi_script.Runtime.Channel.Input.{
  caml_seek_in, caml_pos_in, Source, InChannel, delivered, interrupted, caml_really_getblock,
  caml_getword,
}
use multi_script.Runtime.Channel.Input.Seek.{InFile, caml_seek_in-InFile}
use multi_script.Runtime.Channel.Input.Receipt.{unread}
use multi_script.Runtime.Channel.Input.Gets.{Read, caml_really_getblock-Read}
use multi_script.Runtime.Channel.Input.Words.{caml_getword-caml_putword}

-- One byte of the word 258 is in the buffer already, after one that was read.
abbrev channel : InChannel
channel = record { fd = 3; offset = 2; buff = 7 ∷ 0 ∷ []; curr = 1 }

-- The system gives one byte, is interrupted, and gives the rest.
abbrev source : Source
source = record { answers = delivered 0 ∷ interrupted ∷ []; incoming = 0 ∷ 1 ∷ 2 ∷ codes "end" }

caml_really_getblock-Read_example :
    (all : Bool) × (got : Bytes) × (c' : InChannel) × (s' : Source) × (caml_really_getblock 9
        channel source
      ≡ ok (all, got, c', s'))
    × Read 9 channel source all got c' s'
caml_really_getblock-Read_example = caml_really_getblock-Read 9 channel source (omega arith) tt

abbrev written : Channel.Channel
written = record { fd = 4; offset = 0; buffered = [] }

abbrev slow : Channel.World
slow = record {
  answers = Channel.accepted 0 ∷ Channel.interrupted ∷ [];
  stdout_func = false;
  sink = codes "x";
  calls = [];
}

caml_getword-caml_putword_example :
    (out' : Channel.Channel) × (w' : Channel.World) × (file : Bytes) × ((Channel.caml_putword true
          258 written slow
        >>= λ (out₁, w₁). Channel.caml_flush out₁ w₁)
      ≡ ok (out', w'))
    × (w'.sink ≡ codes "x" ++ file)
    × ((k : ℕ)
        → (c' : InChannel) × (s' : Source) × (caml_getword true
              (record channel { buff = take k file; curr = 0 })
              (record source { incoming = drop k file ++ codes "end" })
            ≡ ok (258, c', s'))
          × (unread c' s' ≡ codes "end"))
caml_getword-caml_putword_example =
    caml_getword-caml_putword 258 written slow channel source (codes "end") (omega arith) refl tt tt

abbrev digits : Bytes
digits = codes "0123456789"

abbrev middle : InChannel
middle = record { fd = 3; offset = 6; buff = codes "345"; curr = 1 }

abbrev last_digits : Source
last_digits = record { answers = []; incoming = codes "6789" }

abbrev digits_from : ℕ → Source
digits_from n = record last_digits { incoming = drop n digits }

caml_seek_in-InFile_example :
    (c : InChannel) × (s : Source) × (caml_seek_in
        (λ n s. some (digits_from n))
        8
        middle
        last_digits
      ≡ ok (c, s))
    × (caml_pos_in c ≡ 8)
    × (unread c s ≡ codes "89")
    × InFile digits c s
caml_seek_in-InFile_example =
    caml_seek_in-InFile (λ n s. some (digits_from n)) digits 8 middle last_digits (digits_from 8)
      (record { before = codes "012"; split = refl; at = refl; inside = omega arith }) (omega arith)
      refl refl
