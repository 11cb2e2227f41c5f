-- ===== src/Interface/Program.antt =====
-- The calls that C++ code makes on a `ScriptStack`, and the virtual methods behind them.
use multi_script.Prelude.{ℕ, Bool, true, false, Option, List, [], ◌∷◌, Bytes}
use multi_script.Outcome.{Outcome, ok, ◌>>=◌}

-- A C `int`, by its pattern of 32 bits.
abbrev pub CInt : Type 0
CInt = ℕ

-- A `ScriptObject *` or `void *` that is not null.
abbrev pub Pointer : Type 0
Pointer = ℕ

-- The virtual methods of `ScriptStack` on the states `S` of a binding; a null result is `none`, and
-- `length == -1` in `PushString` is `none`. A `ClassDesc *` is the address of the description.
pub record StackMethods (S : Type 0) : Type 0 where
  pub get_num_params : S → Outcome (CInt × S)
  pub pop_int : S → Outcome (Option CInt × S)
  pub pop_script_object : S → Outcome (Option Pointer × S)
  pub push_int : CInt → S → Outcome (Bool × S)
  pub push_string : Bytes → Option CInt → S → Outcome (Bool × S)
  pub push_script_object : Pointer → S → Outcome (Bool × S)
  pub push_new_script_object : Pointer → Option Pointer → S → Outcome (Option Pointer × S)

-- User code over a stack, as a tree of its calls: a `GenericFunction`, with its result at the end.
pub data Program (R : Type 0) : Type 0 where
  done : R → Program R
  get_num_params : (CInt → Program R) → Program R
  pop_int : (Option CInt → Program R) → Program R
  pop_script_object : (Option Pointer → Program R) → Program R
  push_int : CInt → (Bool → Program R) → Program R
  push_string : Bytes → Option CInt → (Bool → Program R) → Program R
  push_script_object : Pointer → (Bool → Program R) → Program R
  push_new_script_object : Pointer → Option Pointer → (Option Pointer → Program R) → Program R

abbrev pub GenericFunction : Type 0
GenericFunction = Program Bool

module _ {S : Type 0} (m : StackMethods S) where
  unfoldable pub run : {R : Type 0} → Program R → S → Outcome (R × S)
  run (done r) s = ok (r, s)
  run (get_num_params k) s = do (n, s') ← m.get_num_params s; run (k n) s'
  run (pop_int k) s = do (v, s') ← m.pop_int s; run (k v) s'
  run (pop_script_object k) s = do (o, s') ← m.pop_script_object s; run (k o) s'
  run (push_int v k) s = do (b, s') ← m.push_int v s; run (k b) s'
  run (push_string t n k) s = do (b, s') ← m.push_string t n s; run (k b) s'
  run (push_script_object o k) s = do (b, s') ← m.push_script_object o s; run (k b) s'
  run (push_new_script_object c p k) s = do (o, s') ← m.push_new_script_object c p s; run (k o) s'

-- A caller's pushes of its arguments, giving up at the first that fails, as in
-- `if (!call->PushInt(a)) return false;`.
unfoldable pub push_ints : List CInt → Program Bool
push_ints [] = done true
push_ints (v ∷ vs) = push_int v λ pushed. elim pushed [ true ↦ push_ints vs | false ↦ done false ]
