-- ===== src/Squirrel/Context/Classes.antt =====
-- `RegisterUserClass` and `FindClassInfo` of multiscript/SquirrelScriptContext.cpp.
use multi_script.Prelude.{
  ℕ, ◌+◌, Bool, true, Option, none, some, List, [], ◌∷◌, ◌++◌, Bytes, codes, ◌==◌, if◌then◌else◌,
  length,
}
use multi_script.Outcome.{Outcome, ok, ◌>>◌, assert}
use multi_script.Interface.Program.{Pointer}
use multi_script.Interface.Desc.{ClassDesc, ClassMethodDesc}
use multi_script.Interface.Shared.{is_some, next_position}
use multi_script.Squirrel.Api.{
  SquirrelApi, Handler, constructor_callback, destructor_callback, to_string_callback,
  method_callback, from_top,
}
use multi_script.Squirrel.Context.{SquirrelScriptContext, SquirrelClassInfo}

-- The loop of `FindClassInfo`: the position of the first info of the description.
unfoldable pub find_class_info : Pointer → List SquirrelClassInfo → Option Pointer
find_class_info desc [] = none
find_class_info desc (i ∷ is) =
    if i.desc == desc then some 0 else next_position (find_class_info desc is)

module _ (api : SquirrelApi) where
  open api use {
    State, sq_pushstring, sq_pushuserpointer, sq_pushinteger, sq_newclosure, sq_createslot,
    sq_newclass,
  }

  -- Gives the class on the top a slot with a handler closed over the class info.
  unfoldable pub create_handler : Bytes → Handler → Pointer → State → State
  create_handler key handler info s =
      sq_createslot (from_top 3)
        (sq_newclosure handler 1 (sq_pushuserpointer info (sq_pushstring key s)))

  -- The loop that adds the methods, from method number `i` on.
  unfoldable pub add_methods : List ClassMethodDesc → ℕ → Pointer → State → State
  add_methods [] i info s = s
  add_methods (m ∷ ms) i info s = add_methods ms (i + 1) info (
      sq_createslot (from_top 3) (
        sq_newclosure method_callback 2
          (sq_pushinteger i (sq_pushuserpointer info (sq_pushstring m.name s)))))

  -- The slots of the class on the top.
  unfoldable pub add_members : ClassDesc → Pointer → State → State
  unfolding add_methods create_handler
  add_members desc info s0 =
      let s1 = add_methods desc.methods 0 info s0 in
      let s2 = create_handler (codes "constructor") constructor_callback info s1 in
      let s3 = create_handler (codes "AsString") to_string_callback info s2 in
      if desc.garbage_collect
      then s3
      else create_handler (codes "Destroy") destructor_callback info s3

  -- `RegisterUserClass` of the description at this address.
  unfoldable pub register_user_class :
      Pointer → ClassDesc → SquirrelScriptContext api → Outcome (Bool × SquirrelScriptContext api)
  unfolding add_members
  register_user_class address desc c = do
    assert (is_some desc.constructor)
    assert (is_some desc.destructor)
    let info = length c.classes
    let s = add_members desc info (sq_newclass (sq_pushstring desc.name c.vm))
    ok (
      true,
      record c {
        vm = sq_createslot (from_top 3) s;
        classes = c.classes ++ (record { desc = address; class = desc }) ∷ [];
      },
    )
