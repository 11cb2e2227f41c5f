-- ===== src/Samples/Agreement.antt =====
-- The same user function gives the same answer to a Lua script and to an Ocaml script.
use multi_script.Prelude.{
  ℕ, ◌+◌, ◌%◌, ◌^◌, ◌≡◌, refl, ap, ◌∙◌, Bool, true, none, some, List, [], ◌∷◌, map, get_elem?,
  arith,
}
use multi_script.Interface.Shared.{Classes, any_room}
use multi_script.Outcome.{ok}
use multi_script.Interface.Program.{CInt, Pointer, run}
use multi_script.Interface.Frame.{frame, serve}
use multi_script.Interface.Desc.{FunctionDesc}
use multi_script.Ocaml.Words.{Fits, val_int}
use multi_script.Ocaml.Stack
use multi_script.Ocaml.Stack.{OcamlScriptStack}
use multi_script.Ocaml.Stack.Functions.{one_result, run-serve_ocaml}
use multi_script.Lua.Api.{LuaApi, number, light}
use multi_script.Lua.Context.{LuaScriptContext}
use multi_script.Lua.Stack.{lua_function_callback}
use multi_script.Lua.Stack.Functions.{lua_function_callback-serve}
use multi_script.Samples.{my_add}

serve-my_add :
    (room : List CInt → Bool) (a b : CInt)
    → room [] ≡ true
    → serve room my_add (a ∷ b ∷ []) [] ≡ some (true, frame [] ((a + b) % 2 ^ 32 ∷ []))
unfolding serve my_add
serve-my_add room a b free = rw free

module _ (api : LuaApi) (described : Classes) where
  open api use {stack}

  -- `MyAdd(a, b)` for two integers of 31 bits: the Lua callback returns one value, the wrapped sum,
  -- and the Ocaml callback the word of the same sum.
  pub my_add_agrees :
      (c : LuaScriptContext api) (info : Pointer) (desc : FunctionDesc) (a b : CInt)
      → get_elem? c.functions info ≡ some desc
      → desc.function ≡ my_add
      → stack c.lua ≡ number b ∷ number a ∷ []
      → Fits a
      → Fits b
      → (c' : LuaScriptContext api) × (t : OcamlScriptStack) × (lua_function_callback api described
            (light info)
            c
          ≡ ok (1, c'))
        × (stack c'.lua ≡ number ((a + b) % 2 ^ 32) ∷ [])
        × (run Stack.methods my_add (Stack.new none (map val_int (a ∷ b ∷ []))) ≡ ok (true, t))
        × (t.result ≡ val_int ((a + b) % 2 ^ 32))
  my_add_agrees c info desc a b known is holds fa fb =
      let swapped : (b + a) % 2 ^ 32 ≡ (a + b) % 2 ^ 32 =
        ap (λ (n : ℕ). n % 2 ^ 32) (omega arith) in
      let (c', ran, left) =
        lua_function_callback-serve api described c info desc (a ∷ b ∷ [])
          {f = frame [] ((b + a) % 2 ^ 32 ∷ [])} known holds (omega arith)
          (rw is (serve-my_add any_room b a refl)) in
      let (t, done, result, rest) =
        run-serve_ocaml my_add (a ∷ b ∷ []) (fa, (fb, tt)) (serve-my_add one_result a b refl) in
      (c', t, ran, left ∙ ap (λ (n : ℕ). number n ∷ []) swapped, done, result)
