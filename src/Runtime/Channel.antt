-- ===== src/Runtime/Channel.antt =====
-- The output channels of ocaml/byterun/ocaml_io.c, with the hook through which the embedding program
-- takes what goes to the standard output.
pub mod Delivery
pub mod Puts
pub mod Buffered
pub mod Input
use multi_script.Prelude.{
  ℕ, zero, suc, ◌+◌, ◌-◌, ◌*◌, ◌/◌, ◌%◌, ◌^◌, Bool, true, false, List, [], ◌∷◌, ◌++◌, Bytes, ◌==◌,
  if◌then◌else◌, length, take, drop, ltb, leb, ◌&&◌, ◌||◌,
}
use Prim.Native.Nat.{min}
use multi_script.Outcome.{Outcome, ok, stop, sys_error, failure, no_fuel, ◌>>=◌, ◌>>◌}

-- What the system answers to one `write`: it takes so many bytes and one more, if it is given as
-- many; or a signal comes in between; or the write would block; or it fails.
pub data Answer : Type 0 where
  accepted : ℕ → Answer
  interrupted would_block failed : Answer

-- The answers to come, after which every write is accepted whole; whether the hook is set;
-- the bytes that left, through the hook or the system; and the calls of the hook, by their descriptor
-- and bytes.
pub record World : Type 0 where
  pub answers : List Answer
  pub stdout_func : Bool
  pub sink : Bytes
  pub calls : List (ℕ × Bytes)

-- An output channel; of its buffer, the bytes before `curr`.
pub record Channel : Type 0 where
  pub fd : ℕ
  pub offset : ℕ
  pub buffered : Bytes

abbrev pub io_buffer_size : ℕ
io_buffer_size = 4096

abbrev pub int_max : ℕ
int_max = 2 ^ 31 - 1

unfoldable pub custom_ocaml_set_stdout_func : World → World
custom_ocaml_set_stdout_func w = record w { stdout_func = true }

-- The loop `again` around `write(fd, p, n)`.
unfoldable pub write_again : List Answer → Bytes → ℕ → World → Outcome (ℕ × World)
write_again [] p n w = ok (n, record w { answers = []; sink = w.sink ++ take n p })
write_again (accepted k ∷ later) p n w =
    ok (min (suc k) n, record w { answers = later; sink = w.sink ++ take (min (suc k) n) p })
write_again (interrupted ∷ later) p n w = write_again later p n w
write_again (would_block ∷ later) p n w =
    let one = write_again later p 1 w in if ltb 1 n then one else stop sys_error
write_again (failed ∷ later) p n w = stop sys_error

unfoldable pub do_write : ℕ → Bytes → ℕ → World → Outcome (ℕ × World)
unfolding write_again
do_write fd p n w =
    if (fd == 1 || fd == 2) && w.stdout_func
    then ok (n, record w { sink = w.sink ++ take n p; calls = w.calls ++ (fd, take n p) ∷ [] })
    else write_again w.answers p n w

unfoldable pub caml_flush_partial : Channel → World → Outcome (Bool × Channel × World)
unfolding do_write
caml_flush_partial c w =
    let towrite = length c.buffered in
    if ltb 0 towrite
    then (do
      (written, w') ← do_write c.fd c.buffered towrite w
      let rest = drop written c.buffered
      ok (length rest == 0, record c { offset = c.offset + written; buffered = rest }, w'))
    else ok (true, c, w)

-- The loop of `caml_flush`, on fuel.
unfoldable pub flush_loop : ℕ → Channel → World → Outcome (Channel × World)
unfolding caml_flush_partial
flush_loop zero c w = stop no_fuel
flush_loop (suc fuel) c w = do
  (empty, c', w') ← caml_flush_partial c w
  let rest = flush_loop fuel c' w'
  if empty then ok (c', w') else rest

unfoldable pub caml_flush : Channel → World → Outcome (Channel × World)
unfolding flush_loop
caml_flush c w = flush_loop (suc (length c.buffered)) c w

-- `putch(channel, ch)`, of the low byte of `ch`.
unfoldable pub putch : ℕ → Channel → World → Outcome (Channel × World)
unfolding caml_flush_partial
putch ch c w = do
  (c', w') ←
      (if leb io_buffer_size (length c.buffered)
        then (do (empty, c1, w1) ← caml_flush_partial c w; ok (c1, w1))
        else ok (c, w))
  ok (record c' { buffered = c'.buffered ++ ch % 256 ∷ [] }, w')

-- `caml_putword`; `binary` is the answer of `caml_channel_binary_mode`.
unfoldable pub caml_putword : Bool → ℕ → Channel → World → Outcome (Channel × World)
unfolding putch
caml_putword false x c w = stop failure
caml_putword true x c w = do
  (c1, w1) ← putch (x / 2 ^ 24) c w
  (c2, w2) ← putch (x / 2 ^ 16) c1 w1
  (c3, w3) ← putch (x / 2 ^ 8) c2 w2
  putch x c3 w3

-- How many of the bytes were taken over.
unfoldable pub caml_putblock : Bytes → Channel → World → Outcome (ℕ × Channel × World)
unfolding do_write
caml_putblock p c w =
    let n = min (length p) int_max in
    let free = io_buffer_size - length c.buffered in
    if ltb n free then ok (n, record c { buffered = c.buffered ++ take n p }, w) else (do
      let full = c.buffered ++ take free p
      (written, w') ← do_write c.fd full io_buffer_size w
      ok (free, record c { offset = c.offset + written; buffered = drop written full }, w'))

-- The loop of `caml_really_putblock`, on fuel.
unfoldable pub putblock_loop : ℕ → Bytes → Channel → World → Outcome (Channel × World)
unfolding caml_putblock
putblock_loop zero p c w = if length p == 0 then ok (c, w) else stop no_fuel
putblock_loop (suc fuel) p c w =
    if length p == 0
    then ok (c, w)
    else (do (written, c', w') ← caml_putblock p c w; putblock_loop fuel (drop written p) c' w')

-- Each round takes over a byte, but for a first one that only makes room in a full buffer.
unfoldable pub caml_really_putblock : Bytes → Channel → World → Outcome (Channel × World)
unfolding putblock_loop
caml_really_putblock p c w = putblock_loop (suc (length p)) p c w

unfoldable pub caml_pos_out : Channel → ℕ
caml_pos_out c = c.offset + length c.buffered
