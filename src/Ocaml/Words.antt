-- ===== src/Ocaml/Words.antt =====
-- The integers of the Ocaml runtime, ocaml/byterun/mlvalues.h, on a machine of 32 bits.
use multi_script.Prelude.{
  ℕ, ◌+◌, ◌-◌, ◌*◌, ◌/◌, ◌%◌, ◌^◌, ◌≤◌, ◌<◌, ◌≡◌, ◌⊎◌, ◌↔◌, arith, ltb, if◌then◌else◌,
}
use multi_script.Interface.Program.{CInt}

-- A runtime `value`, by its pattern of 32 bits.
abbrev pub Word : Type 0
Word = ℕ

-- `Val_long(x)`, that is `((intnat)(x) << 1) + 1`
unfoldable pub val_int : CInt → Word
val_int x = (x * 2 + 1) % 2 ^ 32

-- `Long_val(x)`: `>>` on a signed word copies the sign bit.
unfoldable pub int_val : Word → CInt
int_val w = if ltb w (2 ^ 31) then w / 2 else w / 2 + 2 ^ 31

-- `Val_unit`
abbrev pub val_unit : Word
val_unit = 1

-- The integers of 31 bits, by their patterns of 32.
abbrev pub Fits : CInt → Type 0
Fits x = (x < 2 ^ 30) ⊎ ((2 ^ 32 - 2 ^ 30 ≤ x) × (x < 2 ^ 32))

-- An integer of 31 bits comes back from its word.
pub int_val-val_int : (x : CInt) → Fits x → int_val (val_int x) ≡ x
unfolding int_val val_int
int_val-val_int x h = ground arith

-- A C integer comes back from its word exactly when it has at most 31 bits.
pub val_int-Fits : (x : CInt) → x < 2 ^ 32 → (int_val (val_int x) ≡ x) ↔ Fits x
unfolding int_val val_int
val_int-Fits x small = (λ (h : int_val (val_int x) ≡ x). ground arith, int_val-val_int x)
