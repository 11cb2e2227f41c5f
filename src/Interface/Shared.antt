-- ===== src/Interface/Shared.antt =====
-- What the bindings of multiscript/ share: steps of a C `int`, loads, and the room for results.
use multi_script.Prelude.{
  ℕ, suc, ◌+◌, ◌-◌, ◌%◌, ◌^◌, ◌<◌, ◌≡◌, refl, ap, ◌∙◌, Bool, true, false, Option, none, some, List,
  [], ◌∷◌, ◌++◌, append_assoc, map, reverse, arith, Bytes, bytes_eq, if◌then◌else◌, length,
  length-append, length-map, get_elem?, take, leb,
}
use mathlib.Core.List.{reverse-append, map-append}
use multi_script.Outcome.{Outcome, ok, stop, undefined, ◌>>◌, require}
use multi_script.Interface.Program.{CInt, Pointer}
use multi_script.Interface.Desc.{ClassDesc}

abbrev pub decrement : CInt → CInt
decrement n = (n + 2 ^ 32 - 1) % 2 ^ 32

pub decrement-suc : (n : ℕ) → suc n < 2 ^ 32 → decrement (suc n) ≡ n
decrement-suc n h = omega arith

-- A load through a pointer, undefined where nothing lies.
abbrev pub deref {ℓ} : {A : Type ℓ} → Option A → Outcome A
deref none = stop undefined
deref (some a) = ok a

-- The part of a text that `PushString` takes.
abbrev pub prefix : Option CInt → Bytes → Outcome Bytes
prefix none t = ok t
prefix (some k) t = do require (leb k (length t)); ok (take k t)

-- Where the class descriptions lie.
abbrev pub Classes : Type 0
Classes = Pointer → Option ClassDesc

abbrev pub is_some {ℓ} : {A : Type ℓ} → Option A → Bool
is_some none = false
is_some (some a) = true

abbrev pub next_position : Option Pointer → Option Pointer
next_position none = none
next_position (some i) = some (suc i)

-- A stack of the engine always takes one more result.
abbrev pub any_room : List CInt → Bool
any_room rs = true

pub get_elem?-last {ℓ} :
    {A : Type ℓ} (fs : List A) (d : A) → get_elem? (fs ++ d ∷ []) (length fs) ≡ some d
get_elem?-last [] d = refl
get_elem?-last (f ∷ fs) d = get_elem?-last fs d

pub length-reverse : (vs : List CInt) → length (reverse vs) ≡ length vs
length-reverse [] = refl
length-reverse (v ∷ vs) =
    ap (length {0} {A = CInt}) (reverse-append (v ∷ []) vs)
    ∙ omega (arith, length-append {0} (reverse vs) (v ∷ []), length-reverse vs)

-- Values pushed one by one lie on a stack in reverse.
module _ {V : Type 0} (value : CInt → V) where
  pub map-reverse-snoc :
      (v : CInt) (vs : List CInt) (below : List V)
      → map value (reverse (v ∷ vs)) ++ below ≡ map value (reverse vs) ++ value v ∷ below
  map-reverse-snoc v vs below =
      ap (λ (xs : List CInt). map value xs ++ below) (reverse-append (v ∷ []) vs)
      ∙ ap (λ (ws : List V). ws ++ below) (map-append value (reverse vs) (v ∷ []))
      ∙ append_assoc (map value (reverse vs)) (value v ∷ []) below

  pub length-map-reverse : (vs : List CInt) → length (map value (reverse vs)) ≡ length vs
  length-map-reverse vs = length-map {0, 0} (reverse vs) value ∙ length-reverse vs

-- What lies under a name after these bindings are made one after the other.
module _ {V : Type 0} where
  abbrev pub find_last : Bytes → List (Bytes × V) → Option V → Option V
  find_last n [] prior = prior
  find_last n ((k, v) ∷ es) prior = find_last n es (if bytes_eq n k then some v else prior)

  pub find_last-append :
      (n : Bytes) (es fs : List (Bytes × V)) (prior : Option V)
      → find_last n (es ++ fs) prior ≡ find_last n fs (find_last n es prior)
  find_last-append n [] fs prior = refl
  find_last-append n ((k, v) ∷ es) fs prior =
      find_last-append n es fs (if bytes_eq n k then some v else prior)
