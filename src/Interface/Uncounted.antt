-- ===== src/Interface/Uncounted.antt =====
-- User code that never asks for the number of its parameters runs alike over bindings that differ in
-- `GetNumParams` alone.
use multi_script.Prelude.{◌≡◌, refl, Bool, Option}
use multi_script.Outcome.{Outcome, ok, stop, ◌>>=◌}
use multi_script.Interface.Program.{
  CInt, Pointer, Program, done, get_num_params, pop_int, pop_script_object, push_int, push_string,
  push_script_object, push_new_script_object, StackMethods, run,
}

abbrev pub Uncounted : {R : Type 0} → Program R → Type 0
Uncounted (done r) = Unit
Uncounted (get_num_params k) = ⊥
Uncounted (pop_int k) = (v : Option CInt) → Uncounted (k v)
Uncounted (pop_script_object k) = (o : Option Pointer) → Uncounted (k o)
Uncounted (push_int v k) = (b : Bool) → Uncounted (k b)
Uncounted (push_string t n k) = (b : Bool) → Uncounted (k b)
Uncounted (push_script_object o k) = (b : Bool) → Uncounted (k b)
Uncounted (push_new_script_object c p k) = (o : Option Pointer) → Uncounted (k o)

>>=-cong :
    {A B : Type 0} (o : Outcome A) {f g : A → Outcome B}
    → ((a : A) → f a ≡ g a)
    → (o >>= f) ≡ (o >>= g)
>>=-cong (ok a) h = h a
>>=-cong (stop why) h = refl

module _ {S : Type 0} (m : StackMethods S) (counted : S → Outcome (CInt × S)) where
  pub run-Uncounted :
      {R : Type 0} (p : Program R) (s : S)
      → Uncounted p
      → run m p s ≡ run (record m { get_num_params = counted }) p s
  unfolding run
  run-Uncounted (done r) s h = refl
  run-Uncounted (get_num_params k) s h = absurd h
  run-Uncounted (pop_int k) s h = >>=-cong (m.pop_int s) (λ (v, s'). run-Uncounted (k v) s' (h v))
  run-Uncounted (pop_script_object k) s h =
      >>=-cong (m.pop_script_object s) (λ (v, s'). run-Uncounted (k v) s' (h v))
  run-Uncounted (push_int n k) s h =
      >>=-cong (m.push_int n s) (λ (v, s'). run-Uncounted (k v) s' (h v))
  run-Uncounted (push_string t n k) s h =
      >>=-cong (m.push_string t n s) (λ (v, s'). run-Uncounted (k v) s' (h v))
  run-Uncounted (push_script_object o k) s h =
      >>=-cong (m.push_script_object o s) (λ (v, s'). run-Uncounted (k v) s' (h v))
  run-Uncounted (push_new_script_object c o k) s h =
      >>=-cong (m.push_new_script_object c o s) (λ (v, s'). run-Uncounted (k v) s' (h v))
