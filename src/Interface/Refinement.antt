-- ===== src/Interface/Refinement.antt =====
-- A binding whose methods keep to the frame, one by one, keeps to it under every user function.
use multi_script.Prelude.{
  ◌≡◌, Bool, true, false, Option, none, some, List, [], ◌∷◌, ◌++◌, length, Bool-cases, inl, inr,
  arith,
}
use mathlib.Core.Path.{subst}
use multi_script.Outcome.{ok}
use multi_script.Interface.Program.{
  CInt, Program, done, get_num_params, pop_int, pop_script_object, push_int, push_string,
  push_script_object, push_new_script_object, StackMethods, run,
}
use multi_script.Interface.Frame.{Frame, frame, serve}

-- `Sim s params results` says that the state `s` of the binding stands for the frame.
pub record Refines {S : Type 0} (m : StackMethods S) (room : List CInt → Bool)
    (Sim : S → List CInt → List CInt → Type 0) : Type 0 where
  pub counts :
      (s : S) (ps rs : List CInt)
      → Sim s ps rs
      → (t : S) × (m.get_num_params s ≡ ok (length ps, t)) × Sim t ps rs
  pub pops_none : (s : S) → Sim s [] [] → (t : S) × (m.pop_int s ≡ ok (none, t)) × Sim t [] []
  pub pops :
      (s : S) (p : CInt) (ps : List CInt)
      → Sim s (p ∷ ps) []
      → (t : S) × (m.pop_int s ≡ ok (some p, t)) × Sim t ps []
  pub pushes :
      (s : S) (v : CInt) (ps rs : List CInt)
      → room rs ≡ true
      → Sim s ps rs
      → (t : S) × (m.push_int v s ≡ ok (true, t)) × Sim t ps (rs ++ v ∷ [])
  pub refuses :
      (s : S) (v : CInt) (ps rs : List CInt)
      → room rs ≡ false
      → Sim s ps rs
      → (t : S) × (m.push_int v s ≡ ok (false, t)) × Sim t ps rs

some_pair :
    {A B : Type 0} (a a' : A) (b b' : B)
    → ◌≡◌ {A = Option (A × B)} (some (a, b)) (some (a', b'))
    → (a ≡ a') × (b ≡ b')
some_pair a a' b b' e = ground arith

module _ {S : Type 0} {m : StackMethods S} {room : List CInt → Bool}
    {Sim : S → List CInt → List CInt → Type 0} (ref : Refines m room Sim) where
  open ref use {counts, pops_none, pops, pushes, refuses}

  -- The run ends in a state that stands for the frame's end, with the frame's result.
  abbrev pub Ends : {R : Type 0} → Program R → S → R → Frame → Type 0
  Ends p s r f = (t : S) × (run m p s ≡ ok (r, t)) × Sim t f.params f.results

  pub run-serve :
      {R : Type 0} (p : Program R) (s : S) (ps rs : List CInt) {r : R} {f : Frame}
      → Sim s ps rs
      → serve room p ps rs ≡ some (r, f)
      → Ends p s r f
  unfolding run serve
  run-serve (done r') s ps rs {r} {f} sim e =
      let (same, ended) = some_pair r' r (frame ps rs) f e in
      (s, rw same, subst (λ (g : Frame). Sim s g.params g.results) ended sim)
  run-serve (get_num_params k) s ps rs sim e =
      let (t, c, sim') = counts s ps rs sim in
      let (u, go, end) = run-serve (k (length ps)) t ps rs sim' e in (u, rw c go, end)
  run-serve (pop_int k) s ps (r ∷ rs) sim e = cc
  run-serve (pop_int k) s [] [] sim e =
      let (t, c, sim') = pops_none s sim in
      let (u, go, end) = run-serve (k none) t [] [] sim' e in (u, rw c go, end)
  run-serve (pop_int k) s (p ∷ ps) [] sim e =
      let (t, c, sim') = pops s p ps sim in
      let (u, go, end) = run-serve (k (some p)) t ps [] sim' e in (u, rw c go, end)
  run-serve (pop_script_object k) s ps rs sim e = cc
  run-serve (push_int v k) s ps rs sim e = elim (Bool-cases (room rs)) [
    | inl yes_room ↦
        let (t, c, sim') = pushes s v ps rs yes_room sim in
        let (u, go, end) =
          run-serve (k true) t ps (rs ++ v ∷ []) sim' (rw (yes_room, serve) at e) in
        (u, rw c go, end)
    | inr no_room ↦
        let (t, c, sim') = refuses s v ps rs no_room sim in
        let (u, go, end) = run-serve (k false) t ps rs sim' (rw (no_room, serve) at e) in
        (u, rw c go, end)
  ]
  run-serve (push_string t n k) s ps rs sim e = cc
  run-serve (push_script_object o k) s ps rs sim e = cc
  run-serve (push_new_script_object c q k) s ps rs sim e = cc
