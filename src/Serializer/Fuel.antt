-- ===== src/Serializer/Fuel.antt =====
-- Loading from a stream that is not a file ends, whatever the bytes: where nothing is thrown, what
-- is read moves the stream on, and no further than the end.
pub mod Values
pub mod Objects
use libki.Common.{
  ℕ, zero, suc, ◌+◌, ◌*◌, ◌/◌, ◌%◌, ◌^◌, ◌≤◌, ◌<◌, ◌≡◌, ◌≢◌, refl, arith, List, [], ◌∷◌, Bool, true,
  false, not, ◌&&◌, ◌==◌, ltb, if◌then◌else◌, length,
}
use libki.Common.Int.{pos}
use libki.Common.Result.{Result, ok, throw, fault, stuck, ◌>>=◌, rethrow}
use libki.Buffer.{R, cannot_read}
use libki.Position.{BufferPos, add_assign}
use libki.Position.Laws.{offset, IsNormal, max_bits, add_assign_lem}
use libki.Interface
use libki.Interface.Typed.{InScope}
use libki.Stream.{BitStream, realign, read, tell, seek}
use libki.Pclass.EnumType.{RuntimeError, runtime_error}
use libki.Pclass.Primitive
use libki.Pclass.Primitive.{
  Primitive, integer, floating, bit_integer, boolean, string, read_chars, read_string,
  helper_read_from,
}
use libki.Pclass.EnumType.{has_element_valued}
use libki.Pclass.Enum.{Enum, enum_of, set_value}
use libki.Pclass.Enum.Transfer
use libki.Pclass.Object.{
  ValueType, primitive, enum, Stored, is_byte_aligned, PropertyInfo, Pointer, null, object,
  Properties, no_properties, property, Elements, get_element_count, ElementKind, of_type, of_class,
  kind_of, set_object, inherits,
}
use libki.Serializer.{BinarySerializer, Buffers, thrown}
use libki.Serializer.Save.{ignores}
use libki.Serializer.Load.{
  Loaded, instance_of_hash, preload_object, load_into, load_object, load_properties, load_property,
  load_count, load_elements, load_pointers, load_values, read_value,
}
use libki.Serializer.Steps.{byte_position, byte_position_lem}
use libki.Serializer.Objects.Saving.{on_stream}
use native.Mathlib.Decide.{dec_le}

-- Numbers that a uint64_t has room for.
abbrev pub HasWords : ValueType → Type 0
HasWords (primitive (integer n)) = n ≤ 64
HasWords (primitive (floating n)) = n ≤ 64
HasWords (primitive (bit_integer n)) = n ≤ 64
HasWords (primitive boolean) = Unit {0}
HasWords (primitive (string n)) = n ≤ 64
HasWords (enum t) = Unit {0}

-- A result that is not for want of fuel.
abbrev pub IsDone : {A : Type 0} → Result RuntimeError A → Type 0
IsDone (ok a) = Unit {0}
IsDone (throw e) = Unit {0}
IsDone fault = Unit {0}
IsDone stuck = ⊥

pub if-IsDone :
    {A : Type 0} (b : Bool) (x y : Result RuntimeError A)
    → IsDone x
    → IsDone y
    → IsDone (if b then x else y)
if-IsDone true x y h k = h
if-IsDone false x y h k = k

pub set_value-IsDone : (v : ℕ) (e : Enum) → IsDone (set_value v e)
unfolding set_value
set_value-IsDone v e =
    if-IsDone (not (v == 0) && not (has_element_valued v e.m_type)) (throw runtime_error)
      (ok (record e { m_value = v })) tt tt

pub set_object-IsDone : (c : ℕ) (x : Pointer) → IsDone (set_object c x)
unfolding set_object
set_object-IsDone c null = tt
set_object-IsDone c (object d ps) =
    if-IsDone (inherits d c) (ok (object d ps)) (throw runtime_error) tt tt

module _ {S : Type 0} (k : Buffers S) (s : S) (len : ℕ) where
  -- A buffer of whole bytes whose typed reads throw behind its end, and return before it.
  pub record IsBounded : Type 0 where
    pub value : ℕ → BufferPos → ℕ → ℕ
    pub reads :
        (width : ℕ) (p : BufferPos) (n : ℕ)
        → InScope p n
        → Interface.read_value k.ops width s p n
          ≡ (if ltb len (offset p + n) then throw cannot_read else ok (value width p n))
    pub whole_bytes : len % 8 ≡ 0
    pub small : len + 80 < max_bits

  -- A stream over the buffer, at bit `q` or behind it.
  pub record Stands (q : ℕ) (st : BitStream S) : Type 0 where
    pub same : st.m_buffer ≡ s
    pub normal : IsNormal st.m_position
    pub onward : q ≤ offset st.m_position
    pub inside : offset st.m_position ≤ len

  -- What is read ends, and a stream that it returns has moved on.
  abbrev pub Ends : {E A : Type 0} → ℕ → Result E (A × BitStream S) → Type 0
  Ends q (ok (a, st)) = Stands q st
  Ends q (throw e) = Unit {0}
  Ends q fault = Unit {0}
  Ends q stuck = ⊥

  pub Ends-bind :
      {E A B : Type 0} (q q' : ℕ) (r : Result E (A × BitStream S))
      (f : A × BitStream S → Result E (B × BitStream S))
      → Ends q r
      → ((a : A) (st : BitStream S) → Stands q st → Ends q' (f (a, st)))
      → Ends q' (r >>= f)
  Ends-bind q q' (ok (a, st)) f h next = next a st h
  Ends-bind q q' (throw e) f h next = tt
  Ends-bind q q' fault f h next = tt
  Ends-bind q q' stuck f h next = absurd h

  pub Ends-after :
      {A B : Type 0} (q : ℕ) (r : Result RuntimeError A)
      (f : A → Result RuntimeError (B × BitStream S))
      → IsDone r
      → ((a : A) → Ends q (f a))
      → Ends q (r >>= f)
  Ends-after q (ok a) f h next = next a
  Ends-after q (throw e) f h next = tt
  Ends-after q fault f h next = tt
  Ends-after q stuck f h next = absurd h

  pub Ends-thrown : {A : Type 0} (q : ℕ) (r : R (A × BitStream S)) → Ends q r → Ends q (thrown r)
  Ends-thrown q (ok (a, st)) h = h
  Ends-thrown q (throw e) h = tt
  Ends-thrown q fault h = tt
  Ends-thrown q stuck h = absurd h

  pub further : {q q' : ℕ} {st : BitStream S} → q' ≤ q → Stands q st → Stands q' st
  further h w = record {
    same = w.same;
    normal = w.normal;
    onward = omega (arith, h, w.onward);
    inside = w.inside;
  }
