-- ===== src/Serializer/Values.antt =====
-- What a property's values are on a stream that is not a file: an independent description of the
-- format, which Values/Saving and Values/Loading compare with the code.
pub mod Saving
pub mod Loading
use libki.Common.{
  ℕ, ◌%◌, ◌^◌, ◌≤◌, ◌<◌, ◌≡◌, arith, List, [], ◌∷◌, Bool, true, false, not, ◌&&◌, ◌==◌, length,
}
use libki.Pclass.EnumType.{has_element_valued}
use libki.Pclass.Primitive.{
  Primitive, ValueOf, integer, floating, bit_integer, boolean, string, bit_of,
}
use libki.Pclass.Object.{ValueType, primitive, enum, Stored, is_byte_aligned}
use libki.Serializer.Steps.{Step, put, maybe_align, AreWords}

abbrev pub char_steps : ℕ → List ℕ → List Step → List Step
char_steps n [] rest = rest
char_steps n (c ∷ cs) rest = put c n ∷ char_steps n cs rest

-- The steps of a value, before others.
abbrev pub value_steps : (t : ValueType) → Stored t → List Step → List Step
value_steps (primitive (integer n)) v rest = put v n ∷ rest
value_steps (primitive (floating n)) v rest = put v n ∷ rest
value_steps (primitive (bit_integer n)) v rest = put v n ∷ rest
value_steps (primitive boolean) v rest = put (bit_of v) 1 ∷ rest
value_steps (primitive (string n)) v rest = put (length v % 2 ^ 16) 16 ∷ char_steps n v rest
value_steps (enum t) v rest = put v 32 ∷ rest

unfoldable pub values_steps : (t : ValueType) → List (Stored t) → List Step → List Step
unfolding is_byte_aligned
values_steps t [] rest = rest
values_steps t (v ∷ vs) rest =
    maybe_align (is_byte_aligned t) (value_steps t v (values_steps t vs rest))

abbrev pub AreChars : ℕ → List ℕ → Type 0
AreChars n [] = Unit {0}
AreChars n (c ∷ cs) = (c < 2 ^ n) × AreChars n cs

abbrev pub IsNumber : ℕ → ℕ → Type 0
IsNumber n v = (n ≤ 64) × (v < 2 ^ n)

-- The values that a type has: numbers of its bits, texts that a uint16_t can count, and those that
-- an enum takes.
abbrev pub IsValue : (t : ValueType) → Stored t → Type 0
IsValue (primitive (integer n)) v = IsNumber n v
IsValue (primitive (floating n)) v = IsNumber n v
IsValue (primitive (bit_integer n)) v = IsNumber n v
IsValue (primitive boolean) v = Unit {0}
IsValue (primitive (string n)) v = (n ≤ 64) × (length v < 2 ^ 16) × AreChars n v
IsValue (enum t) v = (v < 2 ^ 32) × ((not (v == 0) && not (has_element_valued v t)) ≡ false)

abbrev pub AreValues : (t : ValueType) → List (Stored t) → Type 0
AreValues t [] = Unit {0}
AreValues t (v ∷ vs) = IsValue t v × AreValues t vs

char_steps-AreWords :
    (n : ℕ) (cs : List ℕ) (rest : List Step)
    → n ≤ 64
    → AreWords rest
    → AreWords (char_steps n cs rest)
char_steps-AreWords n [] rest h w = w
char_steps-AreWords n (c ∷ cs) rest h w = (h, char_steps-AreWords n cs rest h w)

value_steps-AreWords :
    (t : ValueType) (v : Stored t) (rest : List Step)
    → IsValue t v
    → AreWords rest
    → AreWords (value_steps t v rest)
value_steps-AreWords (primitive (integer n)) v rest h w = (h.0, w)
value_steps-AreWords (primitive (floating n)) v rest h w = (h.0, w)
value_steps-AreWords (primitive (bit_integer n)) v rest h w = (h.0, w)
value_steps-AreWords (primitive boolean) v rest h w = (omega arith, w)
value_steps-AreWords (primitive (string n)) v rest h w =
    (omega arith, char_steps-AreWords n v rest h.0 w)
value_steps-AreWords (enum t) v rest h w = (omega arith, w)

maybe_align-AreWords :
    (al : Bool) (steps : List Step) → AreWords steps → AreWords (maybe_align al steps)
maybe_align-AreWords true steps w = w
maybe_align-AreWords false steps w = w

pub values_steps-AreWords :
    (t : ValueType) (vs : List (Stored t)) (rest : List Step)
    → AreValues t vs
    → AreWords rest
    → AreWords (values_steps t vs rest)
unfolding values_steps
values_steps-AreWords t [] rest h w = w
values_steps-AreWords t (v ∷ vs) rest h w =
    maybe_align-AreWords (is_byte_aligned t) _
      (value_steps-AreWords t v _ h.0 (values_steps-AreWords t vs rest h.1 w))
