-- ===== src/Runtime/Channel/Input.antt =====
-- The input channels of ocaml/byterun/ocaml_io.c.
pub mod Receipt
pub mod Gets
pub mod Words
pub mod Seek
use multi_script.Prelude.{
  ◌&&◌, Option, none, some, ℕ, zero, suc, ◌+◌, ◌-◌, ◌*◌, ◌%◌, ◌^◌, Bool, true, false, Option, none,
  some, List, [], ◌∷◌, ◌++◌, Bytes, ◌==◌, if◌then◌else◌, length, take, drop, ltb, leb, get_elem?,
}
use Prim.Native.Nat.{min}
use multi_script.Outcome.{
  Outcome, ok, stop, undefined, sys_error, failure, end_of_file, no_fuel, ◌>>=◌,
}
use multi_script.Runtime.Channel.{io_buffer_size, int_max}

-- What the system answers to one `read`: so many bytes and one more, if they are asked for and
-- there; or a signal comes in between; or it fails.
pub data Answer : Type 0 where
  delivered : ℕ → Answer
  interrupted failed : Answer

-- The answers to come, after which every read gives all it can; and the bytes still to be read.
pub record Source : Type 0 where
  pub answers : List Answer
  pub incoming : Bytes

-- An input channel: its buffer from `buff` to `max`, and `curr` as an index into it.
pub record InChannel : Type 0 where
  pub fd : ℕ
  pub offset : ℕ
  pub buff : Bytes
  pub curr : ℕ

unfoldable pub caml_open_descriptor_in : ℕ → ℕ → InChannel
caml_open_descriptor_in fd position = record { fd = fd; offset = position; buff = []; curr = 0 }

abbrev pub give : ℕ → List Answer → Source → Bytes × Source
give n later s = (take n s.incoming, record s { answers = later; incoming = drop n s.incoming })

-- The loop around `read(fd, p, n)`, which gives the bytes that it leaves at `p`.
unfoldable pub read_again : List Answer → ℕ → Source → Outcome (Bytes × Source)
read_again [] n s = ok (give n [] s)
read_again (delivered k ∷ later) n s = ok (give (min (suc k) n) later s)
read_again (interrupted ∷ later) n s = read_again later n s
read_again (failed ∷ later) n s = stop sys_error

unfoldable pub caml_do_read : ℕ → Source → Outcome (Bytes × Source)
unfolding read_again
caml_do_read n s = read_again s.answers n s

abbrev pub first_byte : Bytes → Outcome ℕ
first_byte [] = stop end_of_file
first_byte (b ∷ bs) = ok b

unfoldable pub caml_refill : InChannel → Source → Outcome (ℕ × InChannel × Source)
unfolding caml_do_read
caml_refill c s = do
  (bytes, s') ← caml_do_read io_buffer_size s
  b ← first_byte bytes
  ok (b, record c { offset = c.offset + length bytes; buff = bytes; curr = 1 }, s')

abbrev pub loaded : Option ℕ → Outcome ℕ
loaded none = stop undefined
loaded (some b) = ok b

-- `getch(channel)`
unfoldable pub getch : InChannel → Source → Outcome (ℕ × InChannel × Source)
unfolding caml_refill
getch c s =
    if leb (length c.buff) c.curr
    then caml_refill c s
    else (do b ← loaded (get_elem? c.buff c.curr); ok (b, record c { curr = c.curr + 1 }, s))

-- `res = (res << 8) + …` on a `uint32`
abbrev pub shift_in : ℕ → ℕ → ℕ
shift_in res b = (res * 256 % 2 ^ 32 + b) % 2 ^ 32

-- `caml_getword`, the loop written out; `binary` is the answer of `caml_channel_binary_mode`.
unfoldable pub caml_getword : Bool → InChannel → Source → Outcome (ℕ × InChannel × Source)
unfolding getch
caml_getword false c s = stop failure
caml_getword true c s = do
  (a, c1, s1) ← getch c s
  (b, c2, s2) ← getch c1 s1
  (d, c3, s3) ← getch c2 s2
  (e, c4, s4) ← getch c3 s3
  ok (shift_in (shift_in (shift_in (shift_in 0 a) b) d) e, c4, s4)

-- The bytes that it leaves at `p`, `len` at most.
unfoldable pub caml_getblock : ℕ → InChannel → Source → Outcome (Bytes × InChannel × Source)
unfolding caml_do_read
caml_getblock len c s =
    let n = min len int_max in
    let avail = length c.buff - c.curr in
    if leb n avail
    then ok (take n (drop c.curr c.buff), record c { curr = c.curr + n }, s)
    else (if ltb 0 avail
        then ok (drop c.curr c.buff, record c { curr = c.curr + avail }, s)
        else (do
          (bytes, s') ← caml_do_read io_buffer_size s
          let m = min n (length bytes)
          ok (
            take m bytes,
            record c { offset = c.offset + length bytes; buff = bytes; curr = m },
            s',
          )))

-- The loop of `caml_really_getblock`, on fuel: whether all bytes came, and the bytes.
unfoldable pub getblock_loop :
    ℕ → ℕ → InChannel → Source → Outcome (Bool × Bytes × InChannel × Source)
unfolding caml_getblock
getblock_loop zero n c s = if n == 0 then ok (true, [], c, s) else stop no_fuel
getblock_loop (suc fuel) n c s = if n == 0 then ok (true, [], c, s) else (do
  (got, c', s') ← caml_getblock n c s
  if length got == 0 then ok (false, [], c', s') else (do
    (all, more, c'', s'') ← getblock_loop fuel (n - length got) c' s'
    ok (all, got ++ more, c'', s'')))

-- Each round but the last one gets a byte.
unfoldable pub caml_really_getblock :
    ℕ → InChannel → Source → Outcome (Bool × Bytes × InChannel × Source)
unfolding getblock_loop
caml_really_getblock n c s = getblock_loop n n c s

-- `channel->offset - (channel->max - channel->curr)`
unfoldable pub caml_pos_in : InChannel → ℕ
caml_pos_in c = c.offset - (length c.buff - c.curr)

-- `lseek` is the system's, with `none` where it does not reach the position.
unfoldable pub caml_seek_in :
    (ℕ → Source → Option Source) → ℕ → InChannel → Source → Outcome (InChannel × Source)
caml_seek_in lseek dest c s =
    if leb c.offset (dest + length c.buff) && leb dest c.offset
    then ok (record c { curr = length c.buff - (c.offset - dest) }, s)
    else elim (lseek dest s) [
      | none ↦ stop sys_error
      | some s' ↦ ok (record c { offset = dest; buff = []; curr = 0 }, s')
    ]
