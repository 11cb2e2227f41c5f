-- ===== src/Interface/Utilities.antt =====
-- multiscript/ScriptInterface.cpp: the choice of a language, and text written into buffers.
use multi_script.Prelude.{
  ℕ, ◌≡◌, ◌≢◌, Option, none, some, List, [], ◌∷◌, Bytes, codes, bytes_eq, if◌then◌else◌, length,
  ltb, arith, eq_of_bytes_eq, inl, inr, ◌⊎◌,
}
use multi_script.Outcome.{Outcome, ok, stop, undefined}

-- Which of the `Create…ScriptContext` functions is called.
pub data Language : Type 0 where
  lua gm squirrel ocaml : Language

-- `ScriptContext::Create`, up to the call that creates the context; a null pointer is `none`.
unfoldable pub create : Bytes → Option Language
create name =
    if bytes_eq name (codes "lua")
    then some lua
    else (if bytes_eq name (codes "gm")
        then some gm
        else (if bytes_eq name (codes "squirrel")
            then some squirrel
            else (if bytes_eq name (codes "ocaml") then some ocaml else none)))

-- `GetSupportedLanguages`, whose list a null pointer ends.
unfoldable pub get_supported_languages : List (Option Bytes)
get_supported_languages =
    some (codes "lua")
    ∷ some (codes "gm")
    ∷ some (codes "squirrel")
    ∷ some (codes "ocaml")
    ∷ none
    ∷ []

-- `MultiScriptSprintf` of a text that is already put together: it fits with its terminating zero,
-- or `vsprintf_s` stops the process, and `vsprintf` writes past the buffer.
unfoldable pub sprintf : ℕ → Bytes → Outcome Bytes
sprintf buffer_size text = if ltb (length text) buffer_size then ok text else stop undefined

abbrev pub Listed : Bytes → List (Option Bytes) → Type 0
Listed name [] = ⊥
Listed name (none ∷ ls) = ⊥
Listed name (some l ∷ ls) = (name ≡ l) ⊎ Listed name ls

-- A context is created exactly for the names in the list before its null pointer.
pub create-Listed :
    (name : Bytes)
    → (create name ≢ none → Listed name get_supported_languages)
      × (Listed name get_supported_languages → create name ≢ none)
unfolding create get_supported_languages
create-Listed name =
    let is = eq_of_bytes_eq name in
    (
      λ h.
          ground
            (arith, is (codes "lua"), is (codes "gm"), is (codes "squirrel"), is (codes "ocaml")),
      elim [
        | inl e ↦ rw e (λ n. cc)
        | inr (inl e) ↦ rw e (λ n. cc)
        | inr (inr (inl e)) ↦ rw e (λ n. cc)
        | inr (inr (inr (inl e))) ↦ rw e (λ n. cc)
        | inr (inr (inr (inr e))) ↦ absurd e
      ],
    )
