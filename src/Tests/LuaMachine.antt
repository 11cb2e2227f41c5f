-- ===== src/Tests/LuaMachine.antt =====
-- A machine that keeps the documented laws of the Lua interface: script function 0 returns 31, any
-- other script function fails with a table, and any other call with a message.
use multi_script.Prelude.{
  ℕ, zero, suc, ◌+◌, ◌≡◌, ◌⊎◌, inl, inr, refl, ap, Option, none, some, List, [], ◌∷◌, ◌++◌, Bytes,
  codes, bytes_eq, if◌then◌else◌, ◌==◌, length, drop, get_elem?,
}
use multi_script.Interface.Shared.{is_some}
use multi_script.Interface.Program.{CInt, Pointer}
use multi_script.Lua.Api.{
  LuaApi, Handler, Value, nil, number, text, userdata, light, table, script_function, closure,
  value_at, is_function, is_table, is_userdata, userdata_address, number_value, top_or_nil,
  is_convertible,
}

pub record Machine : Type 0 where
  pub stack : List Value
  pub globals_of : Bytes → Value
  pub blocks : Pointer → Option Pointer
  pub next : Pointer

abbrev numeral : Bytes → Option CInt
numeral t = none

abbrev int_or_zero : Option CInt → CInt
int_or_zero none = 0
int_or_zero (some v) = v

abbrev text_or_none : Option Value → Option Bytes
text_or_none (some (text t)) = some t
text_or_none (some (number v)) = some (codes "0")
text_or_none _ = none

abbrev value_or_nil : Option Value → Value
value_or_nil none = nil
value_or_nil (some v) = v

abbrev push : Value → Machine → Machine
push v m = record m { stack = v ∷ m.stack }

abbrev close : Handler → List Value → List Value
close h (light p ∷ vs) = closure h p none ∷ vs
close h (number i ∷ light p ∷ vs) = closure h p (some i) ∷ vs
close h vs = vs

-- `lua_remove(L, 1)`, the only removal of the binding.
abbrev drop_last : List Value → List Value
drop_last [] = []
drop_last (v ∷ []) = []
drop_last (v ∷ w ∷ vs) = v ∷ drop_last (w ∷ vs)

-- What a call comes to.
abbrev outcome : Option Value → ℕ × Value
outcome (some (script_function zero)) = (0, number 31)
outcome (some (script_function (suc k))) = (2, table k)
outcome _ = (2, text (codes "attempt to call"))

abbrev pcall : ℕ → Machine → ℕ × Machine
pcall n m =
    let (status, v) = outcome (get_elem? m.stack n) in
    (status, record m { stack = v ∷ drop (suc n) m.stack })

drop-frame :
    (args : List Value) (f : Value) (below : List Value)
    → drop (suc (length args)) (args ++ f ∷ below) ≡ below
drop-frame [] f below = refl
drop-frame (a ∷ args) f below = drop-frame args f below

called :
    (args : List Value) (f : Value) (below : List Value)
    → get_elem? (args ++ f ∷ below) (length args) ≡ some f
called [] f below = refl
called (a ∷ args) f below = called args f below

pcall_frame :
    (n : ℕ) (m : Machine) (f : Value) (args below : List Value)
    → m.stack ≡ args ++ f ∷ below
    → length args ≡ n
    → (pcall n m).1.stack ≡ (outcome (get_elem? m.stack n)).1 ∷ below
pcall_frame n m f args below holds count =
    ap (λ (r : List Value). (outcome (get_elem? m.stack n)).1 ∷ r)
      (rw (holds, ← count) (drop-frame args f below))

outcome_status : (v : Option Value) → ((outcome v).0 ≡ 0) ⊎ ((outcome v).0 ≡ 2)
outcome_status none = inr refl
outcome_status (some (script_function zero)) = inl refl
outcome_status (some (script_function (suc k))) = inr refl
outcome_status (some nil) = inr refl
outcome_status (some (number v)) = inr refl
outcome_status (some (text t)) = inr refl
outcome_status (some (userdata p)) = inr refl
outcome_status (some (light p)) = inr refl
outcome_status (some (table t)) = inr refl
outcome_status (some (closure c p i)) = inr refl

pub pcall_results :
    (n : ℕ) (m : Machine) (f : Value) (args below : List Value)
    → m.stack ≡ args ++ f ∷ below
    → length args ≡ n
    → (pcall n m).0 ≡ 0
    → (rs : List Value) × ((pcall n m).1.stack ≡ rs ++ below)
pcall_results n m f args below holds count fine =
    ((outcome (get_elem? m.stack n)).1 ∷ [], pcall_frame n m f args below holds count)

pub pcall_error :
    (n : ℕ) (m : Machine) (f : Value) (args below : List Value)
    → m.stack ≡ args ++ f ∷ below
    → length args ≡ n
    → ¬ ((pcall n m).0 ≡ 0)
    → (v : Value) × ((pcall n m).1.stack ≡ v ∷ below)
pcall_error n m f args below holds count failed =
    ((outcome (get_elem? m.stack n)).1, pcall_frame n m f args below holds count)

pub pcall_status :
    (n : ℕ) (m : Machine)
    → ((pcall n m).0 ≡ 0) ⊎ (((pcall n m).0 ≡ 2) ⊎ (((pcall n m).0 ≡ 4) ⊎ ((pcall n m).0 ≡ 5)))
pcall_status n m = elim (outcome_status (get_elem? m.stack n)) [
  | inl e ↦ inl e
  | inr e ↦ inr (inl e)
]

pub to_integer_value : (o : Option CInt) {v : CInt} → o ≡ some v → int_or_zero o ≡ v
to_integer_value none e = cc
to_integer_value (some w) e = cc

pub converts : (o : Option Value) → is_some (text_or_none o) ≡ is_convertible o
converts none = refl
converts (some nil) = refl
converts (some (number v)) = refl
converts (some (text t)) = refl
converts (some (userdata p)) = refl
converts (some (light p)) = refl
converts (some (table t)) = refl
converts (some (script_function n)) = refl
converts (some (closure c p i)) = refl

pub closed_over :
    (h : Handler) (p : Pointer) (s vs : List Value)
    → s ≡ light p ∷ vs
    → close h s ≡ closure h p none ∷ vs
closed_over h p s vs e = rw e

abbrev pub machine : LuaApi
machine = record {
  State = Machine;
  stack = λ m. m.stack;
  global = λ m. m.globals_of;
  block = λ m. m.blocks;
  numeral = numeral;
  lua_gettop = λ m. length m.stack;
  lua_isnumber = λ i m. is_some (number_value numeral (value_at i m.stack));
  lua_tointeger = λ i m. int_or_zero (number_value numeral (value_at i m.stack));
  lua_tostring = λ i m. text_or_none (value_at i m.stack);
  lua_isuserdata = λ i m. is_userdata (value_at i m.stack);
  lua_touserdata = λ i m. userdata_address (value_at i m.stack);
  lua_isfunction = λ i m. is_function (value_at i m.stack);
  lua_istable = λ i m. is_table (value_at i m.stack);
  lua_pop = λ n m. record m { stack = drop n m.stack };
  lua_remove = λ i m. record m { stack = drop_last m.stack };
  lua_pushvalue = λ i m. push (value_or_nil (value_at i m.stack)) m;
  lua_pushinteger = λ v m. push (number v) m;
  lua_pushstring = λ t m. push (text t) m;
  lua_pushlightuserdata = λ p m. push (light p) m;
  lua_pushcclosure = λ h n m. record m { stack = close h m.stack };
  lua_getglobal = λ n m. push (m.globals_of n) m;
  lua_setglobal = λ n m. record m {
    stack = drop 1 m.stack;
    globals_of = λ k. if bytes_eq k n then top_or_nil m.stack else m.globals_of k;
  };
  lua_newtable = λ m. push (table 0) m;
  lua_settable = λ i m. record m { stack = drop 2 m.stack };
  lua_newmetatable = λ n m. push (table 1) m;
  lua_getmetatable = λ n m. push (table 1) m;
  lua_setmetatable = λ i m. record m { stack = drop 1 m.stack };
  lua_newuserdata = λ m. (m.next, record (push (userdata m.next) m) { next = m.next + 1 });
  store_block = λ b p m. record m { blocks = λ q. if b == q then some p else m.blocks q };
  lua_loadstring = λ t m. (0, push (script_function (length t)) m);
  lua_pcall = pcall;
  gettop-length = λ s. refl;
  isnumber-value = λ i s. refl;
  tointeger-value = λ i s e. to_integer_value _ e;
  isfunction-value = λ i s. refl;
  isuserdata-value = λ i s. refl;
  touserdata-value = λ i s. refl;
  stack-pop = λ n s. refl;
  stack-pushinteger = λ v s. refl;
  stack-pushlightuserdata = λ p s. refl;
  global-pushlightuserdata = λ p s n. refl;
  stack-pushcclosure = λ h p s vs e. closed_over h p s.stack vs e;
  global-pushcclosure = λ h s n. refl;
  stack-setglobal = λ n s. refl;
  global-setglobal = λ n s m. refl;
  stack-getglobal = λ n s. refl;
  pcall-results = pcall_results;
  pcall-error = pcall_error;
  pcall-status = pcall_status;
  tostring-convertible = λ i s. converts (value_at i s.stack);
}
