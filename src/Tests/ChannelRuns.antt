-- ===== src/Tests/ChannelRuns.antt =====
-- The theorems on output channels at concrete inputs.
use multi_script.Prelude.{◌≡◌, refl, true, false, [], ◌∷◌, arith, codes, length}
use multi_script.Outcome.{ok, ◌>>=◌}
use multi_script.Ocaml.Print.{
  ocaml_print_callback, print_calls, c_string, print-ocaml_print_callback,
}
use multi_script.Runtime.Channel.{
  World, Channel, accepted, interrupted, failed, caml_flush, caml_really_putblock,
}
use multi_script.Runtime.Channel.Delivery.{Delivered, caml_flush-Delivered}
use multi_script.Runtime.Channel.Puts.{Puts, caml_really_putblock-Puts}

abbrev channel : Channel
channel = record { fd = 3; offset = 10; buffered = codes "abc" }

-- The system takes two bytes, is interrupted, and takes one.
abbrev slow : World
slow = record {
  answers = accepted 1 ∷ interrupted ∷ accepted 0 ∷ [];
  stdout_func = false;
  sink = codes "x";
  calls = [];
}

abbrev stdout : Channel
stdout = record { fd = 1; offset = 0; buffered = [] }

abbrev hooked : World
hooked = record {
  answers = failed ∷ [];
  stdout_func = true;
  sink = codes "A";
  calls = (1, codes "A") ∷ [];
}

caml_flush-Delivered_example :
    (c' : Channel) × (w' : World) × (caml_flush channel slow ≡ ok (c', w'))
    × Delivered [] channel slow c' w'
    × (length c'.buffered ≡ 0)
caml_flush-Delivered_example = caml_flush-Delivered channel slow (omega arith) tt

caml_really_putblock-Puts_example :
    Puts (codes "defg") channel slow (caml_really_putblock (codes "defg") channel slow)
caml_really_putblock-Puts_example =
    caml_really_putblock-Puts (codes "defg") channel slow (omega arith) tt

print-ocaml_print_callback_example :
    (c' : Channel) × (w' : World) × ((caml_really_putblock (codes "Hello") stdout hooked
        >>= λ (c₁, w₁). caml_flush c₁ w₁)
      ≡ ok (c', w'))
    × (c'.buffered ≡ [])
    × (w'.calls ≡ (1, codes "A") ∷ (1, codes "Hello") ∷ [])
    × (print_calls true w'.calls [] ≡ ok (codes "A" ∷ c_string (codes "Hello") ∷ []))
print-ocaml_print_callback_example =
    print-ocaml_print_callback (codes "Hello") stdout hooked [] (codes "A" ∷ []) (omega arith)
      (omega arith) refl refl (unfold print_calls ocaml_print_callback in refl)
