-- ===== src/Lua/Stack/Protocol.antt =====
-- The whole of a call from C++ into Lua, and the way back to a registered function.
use multi_script.Prelude.{
  ◌+◌, ◌≡◌, refl, sym, ap, ◌∙◌, true, none, some, List, [], ◌∷◌, ◌++◌, map, reverse, arith, length,
  get_elem?, drop, Bytes, bytes_eq, if◌then◌else◌,
}
use multi_script.Interface.Shared.{Classes, get_elem?-last, map-reverse-snoc}
use mathlib.Core.Path.{ap₂}
use multi_script.Outcome.{ok}
use multi_script.Interface.Program.{CInt, run, push_ints}
use multi_script.Interface.Desc.{FunctionDesc}
use multi_script.Lua.Api.{LuaApi, Value, number, closure, function_callback, top_or_nil}
use multi_script.Lua.Context.{LuaScriptContext, register_function, lua_call}
use multi_script.Lua.Stack.{LuaScriptStack, new, methods, end_call, release_after_call}

module _ (api : LuaApi) (described : Classes) where
  open api use {
    State, stack, global, gettop-length, stack-pop, stack-pushinteger, lua_pushinteger, lua_pcall,
    lua_setglobal, lua_pushcclosure, lua_pushlightuserdata, stack-setglobal, global-setglobal,
    stack-pushcclosure, global-pushcclosure, stack-pushlightuserdata, global-pushlightuserdata,
  }

  -- Registering a function binds its name to a closure that leads back to its description, and
  -- leaves the stack, the other globals and the log alone.
  pub register_function-global :
      (c : LuaScriptContext api) (desc : FunctionDesc)
      → (c' : LuaScriptContext api) × (register_function api desc c ≡ ok (true, c'))
        × (stack c'.lua ≡ stack c.lua)
        × ((name : Bytes)
            → global c'.lua name ≡ (
                if bytes_eq name desc.name
                then closure function_callback (length c.functions) none
                else global c.lua name))
        × (get_elem? c'.functions (length c.functions) ≡ some desc)
        × (c'.log ≡ c.log)
  unfolding register_function
  register_function-global c desc =
      let info = length c.functions in
      let l1 = lua_pushlightuserdata info c.lua in
      let l2 = lua_pushcclosure function_callback 1 l1 in
      let l3 = lua_setglobal desc.name l2 in
      let holds : stack l2 ≡ closure function_callback info none ∷ stack c.lua =
        stack-pushcclosure function_callback info l1 (stack c.lua)
          (stack-pushlightuserdata info c.lua) in
      let keep = λ (name : Bytes).
        global-pushcclosure function_callback l1 name ∙ global-pushlightuserdata info c.lua name in
      (
        record c { lua = l3; functions = c.functions ++ desc ∷ [] },
        refl,
        stack-setglobal desc.name l2 ∙ ap (drop 1) holds,
        λ name.
            global-setglobal desc.name l2 name
            ∙ ap₂ (λ (v w : Value). if bytes_eq name desc.name then v else w) (ap top_or_nil holds)
                (keep name),
        get_elem?-last c.functions desc,
        refl,
      )

  run-push_ints :
      (s : LuaScriptStack api) (vs : List CInt)
      → (t : LuaScriptStack api) × (run (methods api described) (push_ints vs) s ≡ ok (true, t))
        × (stack t.context.lua ≡ map number (reverse vs) ++ stack s.context.lua)
        × (t.num_pushed ≡ s.num_pushed + length vs)
        × (t.is_call ≡ s.is_call)
        × (t.context.log ≡ s.context.log)
        × (t.context.has_logger ≡ s.context.has_logger)
  unfolding run push_ints methods
  run-push_ints s [] = (s, refl, refl, omega arith, refl, refl, refl)
  run-push_ints s (v ∷ vs) =
      let s' : LuaScriptStack api = record s {
        context = record s.context { lua = lua_pushinteger v s.context.lua };
        num_pushed = s.num_pushed + 1;
      } in
      let (t, ran, holds, pushed, call, log, logger) = run-push_ints s' vs in
      (
        t,
        ran,
        holds
            ∙ ap (λ (r : List Value). map number (reverse vs) ++ r)
                (stack-pushinteger v s.context.lua)
            ∙ sym (map-reverse-snoc number v vs (stack s.context.lua)),
        omega (arith, pushed),
        call,
        log,
        logger,
      )

  -- The states of a call that goes well.
  pub record Called (c : LuaScriptContext api) (vs : List CInt) (rs : List Value)
      (s t : LuaScriptStack api) : Type 0 where
    pub pushed : run (methods api described) (push_ints vs) (new api c true) ≡ ok (true, s)
    pub ended : end_call api s ≡ ok (true, t)
    pub results : stack t.context.lua ≡ rs
    pub counted : t.num_params ≡ length rs
    pub quiet : t.context.log ≡ c.log
    pub released : release_after_call api t ≡ ok t.context

  -- After a `BeginCall` that found the function `f`, if `f` returns the values `rs` on these arguments,
  -- the last on the top, every push and `EndCall` succeed; what is left on the stack is these results
  -- and nothing else, `GetNumParams` counts them, and `ReleaseAfterCall` leaves those that were not
  -- popped there.
  pub call_script_lua :
      (c : LuaScriptContext api) (f : Value) (vs : List CInt) (rs : List Value)
      → stack c.lua ≡ f ∷ []
      → ((l : State)
          → stack l ≡ map number (reverse vs) ++ f ∷ []
          → ((lua_pcall (length vs) l).0 ≡ 0) × (stack (lua_pcall (length vs) l).1 ≡ rs))
      → (s t : LuaScriptStack api) × Called c vs rs s t
  unfolding end_call new release_after_call lua_call
  call_script_lua c f vs rs holds returns =
      let (s, ran, frame, pushed, call, log, logger) = run-push_ints (new api c true) vs in
      let ready : stack s.context.lua ≡ map number (reverse vs) ++ f ∷ [] =
        frame ∙ ap (λ (r : List Value). map number (reverse vs) ++ r) holds in
      let (fine, left) = returns s.context.lua ready in
      let count : s.num_pushed ≡ length vs = omega (arith, pushed) in
      let l = (lua_pcall (length vs) s.context.lua).1 in
      let c' : LuaScriptContext api = record s.context { lua = l } in
      (
        s,
        record s { context = c'; num_params = api.lua_gettop l },
        record {
          pushed = ran;
          ended = rw (call, count, fine);
          results = left;
          counted = gettop-length l ∙ ap length left;
          quiet = log;
          released = rw call;
        },
      )
