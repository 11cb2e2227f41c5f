-- ===== src/Lua/Stack/Calls.antt =====
-- A call of a Lua function from C++, from `BeginCall` to `ReleaseAfterCall`.
use multi_script.Prelude.{
  ℕ, ◌≡◌, ◌≢◌, inl, inr, refl, ap, ◌∙◌, true, false, some, List, [], ◌∷◌, ◌++◌, arith, length,
  get_or, drop, sym, Option, none, false, Option-cases, Bytes, codes, if◌then◌else◌, Bool-cases,
  ◌==◌,
}
use multi_script.Outcome.{ok, stop, undefined}
use multi_script.Lua.Api.{LuaApi, Value, from_top, value_at, is_function, is_convertible}
use multi_script.Interface.Shared.{is_some}
use multi_script.Lua.Context.{LuaScriptContext, lua_call, error_prefix, begin_call}

abbrev text_or_empty : Option Bytes → Bytes
text_or_empty none = []
text_or_empty (some m) = m

module _ (api : LuaApi) where
  open api use {
    State, stack, global, gettop-length, isfunction-value, stack-pop, stack-pushinteger, lua_pop,
    lua_pushinteger, lua_getglobal, stack-getglobal, lua_pcall, pcall-results, pcall-error,
    pcall-status, tostring-convertible, lua_gettop, lua_tostring, lua_isfunction, lua_setglobal,
    lua_pushcclosure, lua_pushlightuserdata, stack-setglobal, global-setglobal, stack-pushcclosure,
    global-pushcclosure, stack-pushlightuserdata, global-pushlightuserdata,
  }

  -- The errors that `lua_pcall` can report have a branch each.
  error_prefix-failed :
      (n : ℕ) (s : State)
      → ¬ ((lua_pcall n s).0 ≡ 0)
      → (before : Bytes) × (error_prefix (lua_pcall n s).0 ≡ some before)
        × (before ≢ codes "SYNTAX ERROR: ")
  error_prefix-failed n s failed = elim (pcall-status n s) [
    | inl e ↦ absurd (failed e)
    | inr (inl e) ↦ (
      codes "EXECUTION ERROR:\n",
      rw e,
      λ same. omega (arith, ap (λ (b : Bytes). get_or b 0 0) same),
    )
    | inr (inr (inl e)) ↦
        (codes "MEMORY ERROR: ", rw e, λ same. omega (arith, ap (λ (b : Bytes). get_or b 0 0) same))
    | inr (inr (inr e)) ↦ (
      codes "ERROR in ERROR HANDLER: ",
      rw e,
      λ same. omega (arith, ap (λ (b : Bytes). get_or b 0 0) same),
    )
  ]

  nonzero : (n : ℕ) → ¬ (n ≡ 0) → (n == 0) ≡ false
  nonzero n h = ground arith

  -- A call that returns leaves its results in place of the function and the arguments, and logs
  -- nothing.
  pub lua_call-returns :
      (c : LuaScriptContext api) (f : Value) (args below : List Value)
      → stack c.lua ≡ args ++ f ∷ below
      → (lua_pcall (length args) c.lua).0 ≡ 0
      → (rs : List Value) × (c' : LuaScriptContext api) × (lua_call api (length args) c
          ≡ ok (true, c'))
        × (stack c'.lua ≡ rs ++ below)
        × (c'.log ≡ c.log)
  unfolding lua_call
  lua_call-returns c f args below holds fine =
      let (rs, left) = pcall-results (length args) c.lua f args below holds refl fine in
      (rs, record c { lua = (lua_pcall (length args) c.lua).1 }, rw fine, left, refl)

  -- A call that fails, in a context with a logger, leaves the error value on the stack. If this is a
  -- text or a number, it is logged with the words of its kind, never those of a syntax error; with any
  -- other error value a null pointer is formatted as a text, which is undefined.
  pub lua_call-fails :
      (c : LuaScriptContext api) (f : Value) (args below : List Value)
      → stack c.lua ≡ args ++ f ∷ below
      → ¬ ((lua_pcall (length args) c.lua).0 ≡ 0)
      → c.has_logger ≡ true
      → (v : Value) × (before : Bytes) × (c' : LuaScriptContext api) × (lua_call api (length args) c
          ≡ (if is_convertible (some v) then ok (false, c') else stop undefined))
        × (stack c'.lua ≡ v ∷ below)
        × (c'.log
            ≡ c.log
              ++ (before ++ text_or_empty (lua_tostring (from_top 1) c'.lua) ++ codes "\n") ∷ [])
        × (before ≢ codes "SYNTAX ERROR: ")
  unfolding lua_call
  lua_call-fails c f args below holds failed logger =
      let (v, left) = pcall-error (length args) c.lua f args below holds refl failed in
      let (before, kind, other) = error_prefix-failed (length args) c.lua failed in
      let l = (lua_pcall (length args) c.lua).1 in
      let read : is_some (lua_tostring (from_top 1) l) ≡ is_convertible (some v) =
        tostring-convertible (from_top 1) l
        ∙ ap (λ (vs : List Value). is_convertible (value_at (from_top 1) vs)) left in
      (
        v,
        before,
        record c {
          lua = l;
          log = c.log ++ (before ++ text_or_empty (lua_tostring (from_top 1) l) ++ codes "\n") ∷ [];
        },
        elim (Option-cases (lua_tostring (from_top 1) l)) [
          | inl null ↦
              let lost : is_convertible (some v) ≡ false = sym read ∙ ap is_some null in
              rw (nonzero _ failed, kind, null, logger, lost)
          | inr (m, is) ↦
              let kept : is_convertible (some v) ≡ true = sym read ∙ ap is_some is in
              rw (nonzero _ failed, kind, is, logger, kept)
        ],
        left,
        refl,
        other,
      )

  -- Without a logger a failed call is undefined: `m_logger` is not tested.
  pub lua_call-no_logger :
      (c : LuaScriptContext api) (n : ℕ)
      → ¬ ((lua_pcall n c.lua).0 ≡ 0)
      → c.has_logger ≡ false
      → lua_call api n c ≡ stop undefined
  unfolding lua_call
  lua_call-no_logger c n failed silent =
      let (before, kind, other) = error_prefix-failed n c.lua failed in rw (kind, silent)

  -- On an empty stack `BeginCall` finds exactly the functions among the globals: it leaves such a
  -- function as the only value, and otherwise an empty stack.
  pub begin_call-global :
      (c : LuaScriptContext api) (name : Bytes)
      → stack c.lua ≡ []
      → (c' : LuaScriptContext api) × (begin_call api name c
          ≡ ok (is_function (some (global c.lua name)), c'))
        × (stack c'.lua
            ≡ (if is_function (some (global c.lua name)) then global c.lua name ∷ [] else []))
  unfolding begin_call
  begin_call-global c name empty =
      let idle : (lua_gettop c.lua == 0) ≡ true =
        ground (arith, gettop-length c.lua, ap (length {0} {A = Value}) empty) in
      let l = lua_getglobal name c.lua in
      let holds : stack l ≡ global c.lua name ∷ [] =
        stack-getglobal name c.lua ∙ ap (λ (vs : List Value). global c.lua name ∷ vs) empty in
      let test : lua_isfunction (from_top 1) l ≡ is_function (some (global c.lua name)) =
        isfunction-value (from_top 1) l
        ∙ ap (λ (vs : List Value). is_function (value_at (from_top 1) vs)) holds in
      elim (Bool-cases (is_function (some (global c.lua name)))) [
        | inl f ↦ (record c { lua = l }, rw (idle, test, f), rw f holds)
        | inr f ↦ (
          record c { lua = lua_pop 1 l },
          rw (idle, test, f),
          rw f (stack-pop 1 l ∙ ap (drop 1) holds),
        )
      ]
