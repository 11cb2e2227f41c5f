-- ===== src/Lua/Stack/Functions.antt =====
-- A registered Lua function sees its arguments last to first, and returns all that it pushed.
use mathlib.Core.List.{reverse-append}
use multi_script.Prelude.{
  ◌+◌, ◌^◌, ◌<◌, ◌≡◌, refl, sym, ap, ◌∙◌, true, false, none, some, List, [], ◌∷◌, ◌++◌, map,
  reverse, arith, length, length-append, length-map, get_elem?, drop,
}
use multi_script.Interface.Shared.{decrement, decrement-suc, Classes, is_some, any_room}
use multi_script.Outcome.{ok}
use multi_script.Interface.Program.{CInt, Pointer}
use multi_script.Interface.Frame.{Frame, serve}
use multi_script.Interface.Refinement.{Refines, run-serve}
use multi_script.Interface.Desc.{FunctionDesc}
use multi_script.Lua.Api.{LuaApi, Value, number, light, from_top, value_at, number_value}
use multi_script.Lua.Context.{LuaScriptContext}
use multi_script.Lua.Stack.{LuaScriptStack, new, methods, lua_function_callback}

module _ (api : LuaApi) (described : Classes) where
  open api use {
    stack, gettop-length, isnumber-value, tointeger-value, stack-pop, stack-pushinteger, numeral,
    lua_isnumber, lua_tointeger, lua_pop, lua_pushinteger,
  }

  -- The frame holds the results, the last one on the top, and below them the parameters left.
  pub record Serving (s : LuaScriptStack api) (params results : List CInt) : Type 0 where
    pub holds : stack s.context.lua ≡ map number (reverse results) ++ map number params
    pub counted : s.num_params ≡ length params
    pub pushed : s.num_pushed ≡ length results
    pub bounded : length params < 2 ^ 31

  pop_int-empty :
      (s : LuaScriptStack api)
      → Serving s [] []
      → (t : LuaScriptStack api) × ((methods api described).pop_int s ≡ ok (none, t))
        × Serving t [] []
  unfolding methods
  pop_int-empty s is =
      let none_there : lua_isnumber (from_top 1) s.context.lua ≡ false =
        isnumber-value (from_top 1) s.context.lua
        ∙ ap (λ (vs : List Value). is_some (number_value numeral (value_at (from_top 1) vs)))
            is.holds in
      (s, rw none_there, is)

  pop_int-next :
      (s : LuaScriptStack api) (p : CInt) (ps : List CInt)
      → Serving s (p ∷ ps) []
      → (t : LuaScriptStack api) × ((methods api described).pop_int s ≡ ok (some p, t))
        × Serving t ps []
  unfolding methods
  pop_int-next s p ps is =
      let l = s.context.lua in
      let there : lua_isnumber (from_top 1) l ≡ true =
        isnumber-value (from_top 1) l
        ∙ ap (λ (vs : List Value). is_some (number_value numeral (value_at (from_top 1) vs)))
            is.holds in
      let value : lua_tointeger (from_top 1) l ≡ p =
        tointeger-value (from_top 1) l
          (ap (λ (vs : List Value). number_value numeral (value_at (from_top 1) vs)) is.holds) in
      (
        record s {
          context = record s.context { lua = lua_pop 1 l };
          num_params = decrement s.num_params;
        },
        rw (there, value),
        record {
          holds = stack-pop 1 l ∙ ap (drop 1) is.holds;
          counted = ap decrement is.counted ∙ decrement-suc (length ps) (omega (arith, is.bounded));
          pushed = is.pushed;
          bounded = omega (arith, is.bounded);
        },
      )

  push_int-room :
      (s : LuaScriptStack api) (v : CInt) (ps rs : List CInt)
      → any_room rs ≡ true
      → Serving s ps rs
      → (t : LuaScriptStack api) × ((methods api described).push_int v s ≡ ok (true, t))
        × Serving t ps (rs ++ v ∷ [])
  unfolding methods
  push_int-room s v ps rs room is = (
    record s {
      context = record s.context { lua = lua_pushinteger v s.context.lua };
      num_pushed = s.num_pushed + 1;
    },
    refl,
    record {
      holds =
          stack-pushinteger v s.context.lua
          ∙ ap (λ (vs : List Value). number v ∷ vs) is.holds
          ∙ ap (λ (xs : List CInt). map number xs ++ map number ps)
              (sym (reverse-append rs (v ∷ [])));
      counted = is.counted;
      pushed = omega (arith, is.pushed, length-append {0} rs (v ∷ []));
      bounded = is.bounded;
    },
  )

  methods-Refines : Refines (methods api described) any_room Serving
  unfolding methods
  methods-Refines = record {
    counts = λ s ps rs is. (s, rw is.counted, is);
    pops_none = pop_int-empty;
    pops = pop_int-next;
    pushes = push_int-room;
    refuses = λ s v ps rs room is. absurd (cc);
  }

  -- A registered function of the protocol that deals in integers, called from Lua, pops its
  -- arguments last to first. The callback returns the number of its results, and leaves these on
  -- the stack in the order of the pushes, above the arguments that were not popped.
  pub lua_function_callback-serve :
      (c : LuaScriptContext api) (info : Pointer) (desc : FunctionDesc) (args : List CInt)
      {f : Frame}
      → get_elem? c.functions info ≡ some desc
      → stack c.lua ≡ map number (reverse args)
      → length (reverse args) < 2 ^ 31
      → serve any_room desc.function (reverse args) [] ≡ some (true, f)
      → (c' : LuaScriptContext api) × (lua_function_callback api described (light info) c
          ≡ ok (length f.results, c'))
        × (stack c'.lua ≡ map number (reverse f.results) ++ map number f.params)
  unfolding lua_function_callback
  lua_function_callback-serve c info desc args {f} known holds few e =
      let start : Serving (new api c false) (reverse args) [] = record {
        holds = holds;
        counted =
            gettop-length c.lua
            ∙ ap length holds
            ∙ length-map {0, 0} (reverse args) (λ (v : CInt). number v);
        pushed = refl;
        bounded = few;
      } in
      let (t, ran, is) =
        run-serve methods-Refines desc.function (new api c false) (reverse args) [] start e in
      (t.context, rw (known, ran, is.pushed), is.holds)
