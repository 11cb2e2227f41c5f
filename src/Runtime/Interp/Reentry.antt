-- ===== src/Runtime/Interp/Reentry.antt =====
-- A C function that calls back into the interpreter of ocaml/byterun/interp.c.
use multi_script.Prelude.{
  ℕ, zero, suc, ◌+◌, ◌-◌, ◌%◌, ◌^◌, ◌<◌, ◌≡◌, refl, Option, none, some, List, [], ◌∷◌, ◌++◌, length,
  get_elem?, arith,
}
use multi_script.Outcome.{Outcome, ok, stop, ◌>>=◌}
use multi_script.Interface.Program.{CInt}
use multi_script.Ocaml.Words.{Word, val_int, val_unit}
use multi_script.Runtime.Interp.{Block, Machine, frame, acc, apply, enter, field, pop, operand}
use multi_script.Runtime.Interp.Application.{first-append}
use multi_script.Runtime.Interp.Steps.{instructions, step, steps, with_operand}
use multi_script.Runtime.Interp.CCalls.{Primitives, c_call, callback_entry, caml_callback_n_exn}

get_elem?-past :
    (ws : List Word) (a b c d : Word) (above : List Word)
    → get_elem? (ws ++ (a ∷ b ∷ c ∷ d ∷ above)) (length ws + 3) ≡ some d
get_elem?-past [] a b c d above = refl
get_elem?-past (w ∷ ws) a b c d above =
    let sum : suc (length ws) + 3 ≡ suc (length ws + 3) = omega arith in
    rw (sum) (get_elem?-past ws a b c d above)

-- Two continuations of an instruction agree where the first of them comes to `m1`.
continued :
    (o : Outcome (Option Machine)) (f g : Machine → Outcome (Option Machine)) (m1 : Machine)
    (r : Outcome (Option Machine))
    → ((x : Machine) → f x ≡ ok (some m1) → g x ≡ r)
    → (o >>= (λ next. elim next [ none ↦ ok none | some x ↦ f x ])) ≡ ok (some m1)
    → (o >>= (λ next. elim next [ none ↦ ok none | some x ↦ g x ])) ≡ r
continued (stop why) f g m1 r both h = ground (arith, h)
continued (ok none) f g m1 r both h = ground (arith, h)
continued (ok (some x)) f g m1 r both h = both x h

module _ (code : ℕ → Option CInt) (place : (Word → Option Block) → ℕ → Word) where
  steps-add :
      (j k : ℕ) (m m1 : Machine)
      → steps code place j m ≡ ok (some m1)
      → steps code place (j + k) m ≡ steps code place k m1
  unfolding steps
  steps-add zero k m m1 h = ground (arith, h)
  steps-add (suc j) k m m1 h =
      let sum : suc j + k ≡ suc (j + k) = omega arith in
      rw (sum) (
        continued (step code place m) (steps code place j) (steps code place (j + k)) m1
          (steps code place k m1) (λ (x : Machine). steps-add j k x m1) h)

  -- `callback_code`, as `caml_callbackN_exn` writes it for this number of arguments.
  abbrev pub CallbackCode : ℕ → ℕ → Type 0
  CallbackCode start narg =
      (code start ≡ some 8)
      × (code (suc start) ≡ some (narg + 3))
      × (code (suc (suc start)) ≡ some 32)
      × (code (suc (suc (suc start))) ≡ some narg)
      × (code (start + 4) ≡ some 19)
      × (code (suc (start + 4)) ≡ some 1)
      × (code (suc (suc (start + 4))) ≡ some 143)

  -- `caml_callbackN_exn` enters the function of the closure.
  callback_entered :
      (start f : ℕ) (atom closure : Word) (more : ℕ) (args : List Word) (b : Block) (m : Machine)
      → length args ≡ suc more
      → more < 2 ^ 31
      → CallbackCode start (length args)
      → m.heap closure ≡ some b
      → get_elem? b.fields 0 ≡ some f
      → steps code place 2 (callback_entry start atom closure args m)
        ≡ ok (
            some (record m {
              pc = f;
              sp = args ++ (frame (start + 4) val_unit 0 ++ closure ∷ m.sp);
              accu = closure;
              env = closure;
              extra_args = more;
            }))
  unfolding steps step operand instructions with_operand acc apply enter field callback_entry
  callback_entered start f atom closure more args b m many small written holds first_field =
      let (op0, op1, op2, op3, _, _, _) = written in
      let extra : (suc more + 2 ^ 32 - 1) % 2 ^ 32 ≡ more = omega arith in
      rw (
        op0,
        op1,
        get_elem?-past args (start + 4) val_unit (val_int 0) closure m.sp,
        op2,
        op3,
        many,
        extra,
        holds,
        first_field,
      )

  -- What STOP returns once the function of the closure has come back with its result.
  callback_returned :
      (start f k : ℕ) (atom closure : Word) (more : ℕ) (args : List Word) (b : Block)
      (m m1 : Machine)
      → length args ≡ suc more
      → more < 2 ^ 31
      → CallbackCode start (length args)
      → m.heap closure ≡ some b
      → get_elem? b.fields 0 ≡ some f
      → steps code place k (record m {
        pc = f;
        sp = args ++ (frame (start + 4) val_unit 0 ++ closure ∷ m.sp);
        accu = closure;
        env = closure;
        extra_args = more;
      })
        ≡ ok (some (record m1 { pc = start + 4; sp = closure ∷ m.sp }))
      → caml_callback_n_exn start atom code place (2 + (k + 1)) closure args m
        ≡ ok (m1.accu, record m1 { pc = start + 7; sp = m.sp })
  unfolding caml_callback_n_exn steps step operand instructions pop
  callback_returned start f k atom closure more args b m m1 many small written holds first_field
        runs =
      let (_, _, _, _, op4, op5, op6) = written in
      let begun =
        callback_entered start f atom closure more args b m many small written holds first_field in
      let at_stop : suc (suc (suc (start + 4))) ≡ start + 7 = omega arith in
      rw (
        steps-add 2 (k + 1) (callback_entry start atom closure args m) _ begun,
        steps-add k 1 _ _ runs,
        op4,
        op5,
        op6,
        at_stop,
      )

  -- C_CALL1 to C_CALL5 with a C function that leaves `pc`, the stack and the trap frames as they were:
  -- the result is in the accumulator, the arguments are gone from the stack, and the interpreter goes
  -- on after the operand with the environment and the extra arguments from before the call.
  pub c_call-returns :
      (primitive : Primitives) (n : ℕ) (args above : List Word) (v : Word) (h : Word → Option Block)
      (m : Machine)
      → code m.pc ≡ some n
      → primitive n (m.accu ∷ args) (record m { sp = m.env ∷ (args ++ above) })
        ≡ ok (v, record m { sp = m.env ∷ (args ++ above); heap = h })
      → c_call code primitive (length args) (record m { sp = args ++ above })
        ≡ ok (record m { pc = suc m.pc; sp = above; accu = v; heap = h })
  unfolding c_call
  c_call-returns primitive n args above v h m there quiet =
      rw (first-append args above, there, quiet, first-append args above)

  -- C_CALL1 with a C function that calls a closure back, which comes back after `k` instructions with
  -- its result in the accumulator. The interpreter goes on with that result and the stack, the
  -- environment and the extra arguments from before the call, but at the end of `callback_code`,
  -- wherever the C_CALL1 stands in the program.
  pub c_call-callback :
      (start f k n : ℕ) (atom closure : Word) (more : ℕ) (args : List Word) (b : Block)
      (m m1 : Machine)
      → length args ≡ suc more
      → more < 2 ^ 31
      → CallbackCode start (length args)
      → m.heap closure ≡ some b
      → get_elem? b.fields 0 ≡ some f
      → code m.pc ≡ some n
      → steps code place k (record m {
        pc = f;
        sp = args ++ (frame (start + 4) val_unit 0 ++ closure ∷ m.env ∷ m.sp);
        accu = closure;
        env = closure;
        extra_args = more;
      })
        ≡ ok (some (record m1 { pc = start + 4; sp = closure ∷ m.env ∷ m.sp }))
      → c_call code
          (λ n ws m'. caml_callback_n_exn start atom code place (2 + (k + 1)) closure args m')
          0
          m
        ≡ ok (record m1 { pc = start + 8; sp = m.sp; env = m.env; extra_args = m.extra_args })
  unfolding c_call
  c_call-callback start f k n atom closure more args b m m1 many small written holds first_field
        there runs =
      let back =
        callback_returned start f k atom closure more args b (record m { sp = m.env ∷ m.sp }) m1
          many small written holds first_field runs in
      let after : suc (start + 7) ≡ start + 8 = omega arith in rw (there, back, after)
