-- ===== src/Ocaml/Print.antt =====
-- `OcamlPrintCallback` of multiscript/OcamlScriptContext.cpp, which takes the output of scripts from
-- the runtime's hook for the standard output.
use multi_script.Prelude.{
  leb, Bool-cases, inl, inr, ℕ, ◌+◌, ◌≡◌, refl, ap, ◌∙◌, ◌<◌, Bool, true, false, List, [], ◌∷◌,
  ◌++◌, Bytes, ◌==◌, if◌then◌else◌, length, take, ltb, arith, take-length, ◌||◌, ◌&&◌,
}
use multi_script.Outcome.{Outcome, ok, stop, undefined, ◌>>◌, require, ◌>>=◌}
use multi_script.Runtime.Channel.{Channel, World, caml_flush, caml_really_putblock}
use multi_script.Runtime.Channel.Delivery.{caml_flush-hooked}
use multi_script.Runtime.Channel.Buffered.{caml_really_putblock-buffered}

-- The string that starts here, up to its zero.
abbrev pub c_string : Bytes → Bytes
c_string [] = []
c_string (b ∷ bs) = let rest = c_string bs in if b == 0 then [] else b ∷ rest

-- `memcpy` of `n` bytes into a buffer of 1024, and a zero after them; `log` is what the logger got.
unfoldable pub ocaml_print_callback : Bool → List Bytes → Bytes → ℕ → Outcome (List Bytes)
ocaml_print_callback false log p n = ok log
ocaml_print_callback true log p n = do require (ltb n 1024); ok (log ++ c_string (take n p) ∷ [])

-- What the callback, as the hook, makes of the calls.
unfoldable pub print_calls : Bool → List (ℕ × Bytes) → List Bytes → Outcome (List Bytes)
unfolding ocaml_print_callback
print_calls logger [] log = ok log
print_calls logger ((fd, p) ∷ calls) log = do
  log' ← ocaml_print_callback logger log p (length p)
  print_calls logger calls log'

bind-bind :
    (o : Outcome (List Bytes)) (f g k : List Bytes → Outcome (List Bytes))
    → ((l : List Bytes) → f l ≡ (g l >>= k))
    → (o >>= f) ≡ (o >>= g >>= k)
bind-bind (stop why) f g k h = refl
bind-bind (ok l) f g k h = h l

print_calls-append :
    (logger : Bool) (calls more : List (ℕ × Bytes)) (log : List Bytes)
    → print_calls logger (calls ++ more) log
      ≡ (print_calls logger calls log >>= print_calls logger more)
unfolding print_calls
print_calls-append logger [] more log = refl
print_calls-append logger ((fd, p) ∷ calls) more log =
    bind-bind (ocaml_print_callback logger log p (length p)) _ (print_calls logger calls)
      (print_calls logger more) (λ log'. print_calls-append logger calls more log')

-- While the hook is set and there is a logger, a script prints some bytes, at most 4095, on a channel
-- of the standard output or error that buffers nothing, and flushes it. The hook is called once, with
-- all of these bytes. After what the calls before it left, the logger gets the bytes up to the first
-- zero as one text if they are 1023 at most; with more, the callback writes past its own buffer.
pub print-ocaml_print_callback :
    (p : Bytes) (c : Channel) (w : World) (log log' : List Bytes)
    → 0 < length p
    → length p < 4096
    → c.buffered ≡ []
    → ((c.fd == 1 || c.fd == 2) && w.stdout_func) ≡ true
    → print_calls true w.calls log ≡ ok log'
    → (c' : Channel) × (w' : World) × ((caml_really_putblock p c w >>= λ (c₁, w₁). caml_flush c₁ w₁)
        ≡ ok (c', w'))
      × (c'.buffered ≡ [])
      × (w'.calls ≡ w.calls ++ (c.fd, p) ∷ [])
      × (print_calls true w'.calls log
          ≡ (if leb (length p) 1023 then ok (log' ++ c_string p ∷ []) else stop undefined))
unfolding print_calls ocaml_print_callback
print-ocaml_print_callback p c w log log' filled fits empty hooked before =
    let full : Channel = record c { buffered = p } in
    let put : caml_really_putblock p c w ≡ ok (full, w) =
      caml_really_putblock-buffered p c w filled (rw empty (omega (arith, fits)))
      ∙ ap (λ (b : Bytes). ok (record c { buffered = b ++ p }, w)) empty in
    (
      record c { offset = c.offset + length p; buffered = [] },
      record w { sink = w.sink ++ p; calls = w.calls ++ (c.fd, p) ∷ [] },
      rw put (caml_flush-hooked full w filled hooked),
      refl,
      refl,
      print_calls-append true w.calls ((c.fd, p) ∷ []) log
          ∙ rw before (elim (Bool-cases (leb (length p) 1023)) [
            | inl small ↦
                let fits : ltb (length p) 1024 ≡ true = ground arith in
                rw (small, fits, take-length {0} p)
            | inr large ↦ let over : ltb (length p) 1024 ≡ false = ground arith in rw (large, over)
          ]),
    )
