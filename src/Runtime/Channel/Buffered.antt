-- ===== src/Runtime/Channel/Buffered.antt =====
-- A block that fits into the buffer of an output channel of ocaml/byterun/ocaml_io.c.
use multi_script.Prelude.{
  ℕ, zero, suc, ◌+◌, ◌-◌, ◌<◌, ◌≡◌, refl, ap, ◌∙◌, true, false, [], ◌++◌, Bytes, ◌==◌, length,
  take-length, drop-length, ltb, arith,
}
use Prim.Native.Nat.{min}
use multi_script.Outcome.{ok}
use multi_script.Runtime.Channel.{
  World, Channel, caml_putblock, putblock_loop, caml_really_putblock, io_buffer_size, int_max,
}

putblock_loop-nil : (fuel : ℕ) (c : Channel) (w : World) → putblock_loop fuel [] c w ≡ ok (c, w)
unfolding putblock_loop
putblock_loop-nil zero c w = refl
putblock_loop-nil (suc fuel) c w = refl

-- Bytes for which the buffer has room to spare are only buffered.
pub caml_really_putblock-buffered :
    (p : Bytes) (c : Channel) (w : World)
    → 0 < length p
    → length c.buffered + length p < 4096
    → caml_really_putblock p c w ≡ ok (record c { buffered = c.buffered ++ p }, w)
unfolding caml_really_putblock putblock_loop caml_putblock
caml_really_putblock-buffered p c w filled fits =
    let more : (length p == 0) ≡ false = ground arith in
    let whole : min (length p) int_max ≡ length p = omega arith in
    let small : ltb (length p) (io_buffer_size - length c.buffered) ≡ true = ground arith in
    rw (more, whole, small, take-length {0} p)
      (ap (λ (b : Bytes). putblock_loop (length p) b (record c { buffered = c.buffered ++ p }) w)
          (drop-length {0} p)
        ∙ putblock_loop-nil (length p) (record c { buffered = c.buffered ++ p }) w)
