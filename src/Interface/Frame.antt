-- ===== src/Interface/Frame.antt =====
-- What `ScriptStack` promises of a call of a registered function that deals in integers, with no
-- language behind it: the parameters left to pop, and the results pushed so far.
use multi_script.Prelude.{Bool, Option, none, some, true, false, List, [], ◌∷◌, ◌++◌, length}
use multi_script.Interface.Program.{
  CInt, Program, done, get_num_params, pop_int, pop_script_object, push_int, push_string,
  push_script_object, push_new_script_object,
}

-- `params` has the value that is popped next first; `results` is in the order of the pushes.
pub record Frame : Type 0 where
  pub params : List CInt
  pub results : List CInt

abbrev pub frame : List CInt → List CInt → Frame
frame ps rs = record { params = ps; results = rs }

-- The run of user code over a frame; `room` says whether one more result can be pushed. A function
-- "first pops parameters from the stack, then pushes results": a pop after a push has no meaning
-- here, nor has a call that is not about integers.
module _ (room : List CInt → Bool) {R : Type 0} where
  unfoldable pub serve : Program R → List CInt → List CInt → Option (R × Frame)
  serve (done r) ps rs = some (r, frame ps rs)
  serve (get_num_params k) ps rs = serve (k (length ps)) ps rs
  serve (pop_int k) ps (r ∷ rs) = none
  serve (pop_int k) [] [] = serve (k none) [] []
  serve (pop_int k) (p ∷ ps) [] = serve (k (some p)) ps []
  serve (pop_script_object k) ps rs = none
  serve (push_int v k) ps rs = elim (room rs) [
    | true ↦ serve (k true) ps (rs ++ v ∷ [])
    | false ↦ serve (k false) ps rs
  ]
  serve (push_string t n k) ps rs = none
  serve (push_script_object o k) ps rs = none
  serve (push_new_script_object c p k) ps rs = none
