-- ===== src/Lua/Api.antt =====
-- What the Lua binding uses of the Lua 5.1 C interface, lua/src/lua.h and lauxlib.h, with the
-- documented effect of each function on the stack of the running C function and on the globals.
use multi_script.Prelude.{
  ℕ, zero, suc, ◌-◌, ◌≡◌, ◌⊎◌, Bool, true, false, Option, none, some, List, [], ◌∷◌, ◌++◌, Bytes,
  bytes_eq, if◌then◌else◌, length, drop, get_elem?, ltb,
}
use multi_script.Interface.Program.{CInt, Pointer}
use multi_script.Interface.Shared.{is_some}

-- The C functions that the binding hands to Lua.
pub data Handler : Type 0 where
  function_callback constructor_callback destructor_callback gc_callback : Handler
  to_string_callback method_callback : Handler

-- A number stands by the `int` that it converts to. A closure of a handler has a light userdata as
-- its first value, and a number as its second, if any.
pub data Value : Type 0 where
  nil : Value
  number : CInt → Value
  text : Bytes → Value
  userdata : Pointer → Value
  light : Pointer → Value
  table : ℕ → Value
  script_function : ℕ → Value
  closure : Handler → Pointer → Option CInt → Value

-- A stack index: `-n`, `n`, or `LUA_GLOBALSINDEX`.
pub data Index : Type 0 where
  from_top : ℕ → Index
  absolute : ℕ → Index
  globals : Index

-- The value at a valid index of a frame, whose top value stands first.
abbrev pub value_at : Index → List Value → Option Value
value_at (from_top zero) vs = none
value_at (from_top (suc n)) vs = get_elem? vs n
value_at (absolute zero) vs = none
value_at (absolute (suc n)) vs =
    if ltb n (length vs) then get_elem? vs (length vs - suc n) else none
value_at globals vs = none

abbrev pub is_function : Option Value → Bool
is_function (some (script_function f)) = true
is_function (some (closure h p i)) = true
is_function _ = false

abbrev pub is_table : Option Value → Bool
is_table (some (table t)) = true
is_table _ = false

abbrev pub is_userdata : Option Value → Bool
is_userdata (some (userdata p)) = true
is_userdata (some (light p)) = true
is_userdata _ = false

abbrev pub userdata_address : Option Value → Option Pointer
userdata_address (some (userdata p)) = some p
userdata_address (some (light p)) = some p
userdata_address _ = none

-- `lua_tostring` converts texts and numbers, and gives a null pointer for the rest.
abbrev pub is_convertible : Option Value → Bool
is_convertible (some (number v)) = true
is_convertible (some (text t)) = true
is_convertible _ = false

-- `numeral` says which texts Lua converts to a number.
abbrev pub number_value : (Bytes → Option CInt) → Option Value → Option CInt
number_value numeral (some (number v)) = some v
number_value numeral (some (text t)) = numeral t
number_value numeral _ = none

abbrev pub top_or_nil : List Value → Value
top_or_nil [] = nil
top_or_nil (v ∷ vs) = v

-- The statuses of `lua_pcall`
abbrev pub lua_errrun : ℕ
lua_errrun = 2

abbrev pub lua_errsyntax : ℕ
lua_errsyntax = 3

abbrev pub lua_errmem : ℕ
lua_errmem = 4

abbrev pub lua_errerr : ℕ
lua_errerr = 5

pub record LuaApi : Type 1 where
  pub State : Type 0
  pub stack : State → List Value
  pub global : State → Bytes → Value
  pub block : State → Pointer → Option Pointer
  pub numeral : Bytes → Option CInt
  -- queries
  pub lua_gettop : State → ℕ
  pub lua_isnumber : Index → State → Bool
  pub lua_tointeger : Index → State → CInt
  pub lua_tostring : Index → State → Option Bytes
  pub lua_isuserdata : Index → State → Bool
  pub lua_touserdata : Index → State → Option Pointer
  pub lua_isfunction : Index → State → Bool
  pub lua_istable : Index → State → Bool
  -- the stack
  pub lua_pop : ℕ → State → State
  pub lua_remove : Index → State → State
  pub lua_pushvalue : Index → State → State
  pub lua_pushinteger : CInt → State → State
  pub lua_pushstring : Bytes → State → State
  pub lua_pushlightuserdata : Pointer → State → State
  pub lua_pushcclosure : Handler → ℕ → State → State
  -- tables, metatables and userdata
  pub lua_getglobal : Bytes → State → State
  pub lua_setglobal : Bytes → State → State
  pub lua_newtable : State → State
  pub lua_settable : Index → State → State
  pub lua_newmetatable : Bytes → State → State
  pub lua_getmetatable : Bytes → State → State
  pub lua_setmetatable : Index → State → State
  pub lua_newuserdata : State → Pointer × State
  pub store_block : Pointer → Pointer → State → State
  -- running code; both give a status, `lua_pcall` keeps all results
  pub lua_loadstring : Bytes → State → ℕ × State
  pub lua_pcall : ℕ → State → ℕ × State
  -- the documented effects that the theorems rest on
  pub gettop-length : (s : State) → lua_gettop s ≡ length (stack s)
  pub isnumber-value :
      (i : Index) (s : State)
      → lua_isnumber i s ≡ is_some (number_value numeral (value_at i (stack s)))
  pub tointeger-value :
      (i : Index) (s : State) {v : CInt}
      → number_value numeral (value_at i (stack s)) ≡ some v
      → lua_tointeger i s ≡ v
  pub isfunction-value :
      (i : Index) (s : State) → lua_isfunction i s ≡ is_function (value_at i (stack s))
  pub isuserdata-value :
      (i : Index) (s : State) → lua_isuserdata i s ≡ is_userdata (value_at i (stack s))
  pub touserdata-value :
      (i : Index) (s : State) → lua_touserdata i s ≡ userdata_address (value_at i (stack s))
  pub stack-pop : (n : ℕ) (s : State) → stack (lua_pop n s) ≡ drop n (stack s)
  pub stack-pushinteger : (v : CInt) (s : State) → stack (lua_pushinteger v s) ≡ number v ∷ stack s
  pub stack-pushlightuserdata :
      (p : Pointer) (s : State) → stack (lua_pushlightuserdata p s) ≡ light p ∷ stack s
  pub global-pushlightuserdata :
      (p : Pointer) (s : State) (n : Bytes) → global (lua_pushlightuserdata p s) n ≡ global s n
  pub stack-pushcclosure :
      (h : Handler) (p : Pointer) (s : State) (vs : List Value)
      → stack s ≡ light p ∷ vs
      → stack (lua_pushcclosure h 1 s) ≡ closure h p none ∷ vs
  pub global-pushcclosure :
      (h : Handler) (s : State) (n : Bytes) → global (lua_pushcclosure h 1 s) n ≡ global s n
  pub stack-setglobal : (n : Bytes) (s : State) → stack (lua_setglobal n s) ≡ drop 1 (stack s)
  pub global-setglobal :
      (n : Bytes) (s : State) (m : Bytes)
      → global (lua_setglobal n s) m ≡ (if bytes_eq m n then top_or_nil (stack s) else global s m)
  pub stack-getglobal : (n : Bytes) (s : State) → stack (lua_getglobal n s) ≡ global s n ∷ stack s
  -- a protected call takes the function and its arguments, and leaves its results or one error value,
  -- which may be of any type
  pub pcall-results :
      (n : ℕ) (s : State) (f : Value) (args below : List Value)
      → stack s ≡ args ++ f ∷ below
      → length args ≡ n
      → (lua_pcall n s).0 ≡ 0
      → (rs : List Value) × (stack (lua_pcall n s).1 ≡ rs ++ below)
  pub pcall-error :
      (n : ℕ) (s : State) (f : Value) (args below : List Value)
      → stack s ≡ args ++ f ∷ below
      → length args ≡ n
      → ¬ ((lua_pcall n s).0 ≡ 0)
      → (v : Value) × (stack (lua_pcall n s).1 ≡ v ∷ below)
  pub pcall-status :
      (n : ℕ) (s : State)
      → let c = (lua_pcall n s).0 in
        (c ≡ 0) ⊎ ((c ≡ lua_errrun) ⊎ ((c ≡ lua_errmem) ⊎ (c ≡ lua_errerr)))
  pub tostring-convertible :
      (i : Index) (s : State) → is_some (lua_tostring i s) ≡ is_convertible (value_at i (stack s))
