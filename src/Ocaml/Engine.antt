-- ===== src/Ocaml/Engine.antt =====
-- What the binding uses of the Ocaml runtime: calls of closures, ocaml/byterun/callback.c.
use multi_script.Prelude.{◌≡◌, List, [], ◌∷◌}
use multi_script.Outcome.{Outcome}
use multi_script.Ocaml.Words.{Word}

-- The callbacks apply the closure to the arguments in order; they run script code, which may do
-- anything to the runtime and need not come back.
pub record OcamlEngine : Type 1 where
  pub State : Type 0
  pub caml_callback : Word → Word → State → Outcome (Word × State)
  pub caml_callback2 : Word → Word → Word → State → Outcome (Word × State)
  pub caml_callback3 : Word → Word → Word → Word → State → Outcome (Word × State)
  pub caml_callback_n : Word → List Word → State → Outcome (Word × State)
  pub callback_one : (c a : Word) (s : State) → caml_callback c a s ≡ caml_callback_n c (a ∷ []) s
  pub callback_two :
      (c a b : Word) (s : State) → caml_callback2 c a b s ≡ caml_callback_n c (a ∷ b ∷ []) s
  pub callback_three :
      (c a b d : Word) (s : State) → caml_callback3 c a b d s ≡ caml_callback_n c (a ∷ b ∷ d ∷ []) s
