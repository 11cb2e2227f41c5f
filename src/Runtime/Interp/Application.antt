-- ===== src/Runtime/Interp/Application.antt =====
-- Calls and returns in ocaml/byterun/interp.c.
use multi_script.Prelude.{
  ℕ, suc, ◌+◌, ◌-◌, ◌%◌, ◌^◌, ◌<◌, ◌≡◌, refl, sym, ap, Option, some, List, [], ◌∷◌, ◌++◌, length,
  arith,
}
use multi_script.Outcome.{Outcome, ok, stop, ◌>>=◌}
use multi_script.Interface.Program.{CInt}
use multi_script.Ocaml.Words.{Word, Fits, int_val-val_int}
use multi_script.Runtime.Interp.{
  Machine, frame, jump, first, apply_few, push_retaddr, apply, appterm, appterm_few, return,
  operand, enter, slide, leave, pop, field,
}

pub first-append : (ws above : List Word) → first (length ws) (ws ++ above) ≡ ok (ws, above)
first-append [] above = refl
first-append (w ∷ ws) above = ground (arith, first-append ws above)

module _ {A B : Type 0} where
  bind-cong : (o : Outcome A) (f g : A → Outcome B) → ((a : A) → f a ≡ g a) → (o >>= f) ≡ (o >>= g)
  bind-cong (stop why) f g h = refl
  bind-cong (ok a) f g h = h a

-- Two continuations of a function that is entered.
entered :
    (o : Outcome Word) (f g : Word → Machine) (f' g' : Machine → Outcome Machine)
    → ((c : Word) → f' (f c) ≡ g' (g c))
    → (o >>= (λ c. ok (f c)) >>= f') ≡ (o >>= (λ c. ok (g c)) >>= g')
entered (stop why) f g f' g' h = refl
entered (ok c) f g f' g' h = h c

entered_then :
    (o : Outcome Word) (f g : Word → Machine) (g' : Machine → Outcome Machine)
    → ((c : Word) → ok (f c) ≡ g' (g c))
    → (o >>= (λ c. ok (f c))) ≡ (o >>= (λ c. ok (g c)) >>= g')
entered_then (stop why) f g g' h = refl
entered_then (ok c) f g g' h = h c

extra_sum : (e x : ℕ) → (e + suc x + 2 ^ 32 - 1) % 2 ^ 32 ≡ (e + x) % 2 ^ 32
extra_sum e x = omega arith

extra_direct : (x : ℕ) → x < 2 ^ 31 → (suc x + 2 ^ 32 - 1) % 2 ^ 32 ≡ x
extra_direct x small = omega arith

module _ (code : ℕ → Option CInt) where
  -- APPTERM1, APPTERM2 and APPTERM3 do what APPTERM does with their number of arguments, whatever the
  -- positions of the two instructions in the program.
  pub appterm_few-appterm :
      (extra p q : ℕ) (slots : CInt) (m : Machine)
      → extra < 2 ^ 31
      → m.extra_args < 2 ^ 32
      → code p ≡ some (suc extra)
      → code (suc p) ≡ some slots
      → code q ≡ some slots
      → appterm code (record m { pc = p }) ≡ appterm_few code extra (record m { pc = q })
  unfolding appterm appterm_few operand enter field
  appterm_few-appterm extra p q slots m small word nargs general special =
      rw (nargs, general, special)
        (bind-cong (slide (suc extra) slots m.sp) _ _ (λ (sp : List Word).
          entered (field 0 m.accu m) _ _ _ _ (λ (c : Word).
            ap (λ (e : CInt). ok (record m { pc = c; sp = sp; env = m.accu; extra_args = e }))
              (extra_sum m.extra_args extra))))

  -- APPLY1, APPLY2 and APPLY3 do what PUSH_RETADDR does before the arguments are pushed and APPLY after
  -- that, if PUSH_RETADDR is given the address after the short instruction.
  pub apply_few-apply :
      (extra p q : ℕ) (d : CInt) (args above : List Word) (m : Machine)
      → extra < 2 ^ 31
      → length args ≡ suc extra
      → code p ≡ some d
      → jump p d ≡ m.pc
      → code q ≡ some (suc extra)
      → push_retaddr code (record m { pc = p; sp = above })
          >>= (λ m1. apply code (record m1 { pc = q; sp = args ++ m1.sp }))
        ≡ apply_few extra (record m { sp = args ++ above })
  unfolding push_retaddr apply apply_few operand enter field
  apply_few-apply extra p q d args above m small many there back applied =
      rw (there, sym many, first-append args above, applied, back)
        (entered_then (field 0 m.accu m) _ _ _ (λ (c : Word).
          ap
            (λ (e : CInt). ok (record m {
              pc = c;
              sp = args ++ (frame m.pc m.env m.extra_args ++ above);
              env = m.accu;
              extra_args = e;
            }))
            (extra_direct extra small)))

  -- RETURN without extra arguments, after PUSH_RETADDR and the push of any locals, drops the locals
  -- and continues at the pushed address with the environment, the extra arguments and the stack of
  -- the caller.
  pub return-push_retaddr :
      (d : CInt) (locals : List Word) (m m' : Machine)
      → Fits m.extra_args
      → code m.pc ≡ some d
      → code m'.pc ≡ some (length locals)
      → m'.extra_args ≡ 0
      → push_retaddr code m >>= (λ m1. return code (record m' { sp = locals ++ m1.sp }))
        ≡ ok (record m' { pc = jump m.pc d; sp = m.sp; env = m.env; extra_args = m.extra_args })
  unfolding push_retaddr return pop operand leave
  return-push_retaddr d locals m m' fits there popped none_left = rw (
    there,
    popped,
    first-append locals (frame (jump m.pc d) m.env m.extra_args ++ m.sp),
    none_left,
    int_val-val_int m.extra_args fits,
  )
