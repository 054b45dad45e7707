-- ===== src/Pclass/Primitive.antt =====
-- PrimitiveType of pclass: how values of the C++ types are written to a BitStream and read from it.
-- A number is given by its bits, as an unsigned number; so are the floating point types, which the
-- source reinterprets as integers of the same size.
use libki.Common.{
  ℕ, zero, suc, ◌*◌, ◌/◌, ◌%◌, ◌^◌, List, [], ◌∷◌, Bool, true, false, not, ◌==◌, if◌then◌else◌,
  length,
}
use libki.Common.Result.{Result, ok, ◌>>=◌, rethrow}
use libki.Buffer.{R}
use libki.Interface.{IBitBuffer}
use libki.Stream.{BitStream, read, write}
use libki.Pclass.EnumType.{RuntimeError, runtime_error}

-- The types that primitive_type_helper has a specialization for: integers, floating point types and
-- BitInteger by their number of bits, and strings by the number of bits of a character.
pub data Primitive : Type 0 where
  integer floating bit_integer : ℕ → Primitive
  boolean : Primitive
  string : ℕ → Primitive

-- ValueT.
abbrev pub ValueOf : Primitive → Type 0
ValueOf (integer bits) = ℕ
ValueOf (floating bits) = ℕ
ValueOf (bit_integer bits) = ℕ
ValueOf boolean = Bool
ValueOf (string bits) = List ℕ

unfoldable pub is_byte_aligned : Primitive → Bool
is_byte_aligned (integer bits) = true
is_byte_aligned (floating bits) = true
is_byte_aligned (bit_integer bits) = false
is_byte_aligned boolean = false
is_byte_aligned (string bits) = true

abbrev pub bit_of : Bool → ℕ
bit_of true = 1
bit_of false = 0

module _ {S : Type 0} (b : IBitBuffer S) where
  unfoldable pub write_chars : ℕ → List ℕ → BitStream S → R (BitStream S)
  write_chars bits [] st = ok st
  write_chars bits (c ∷ cs) st = write b st c bits >>= λ st'. write_chars bits cs st'

  unfoldable pub write_string : ℕ → BitStream S → Bool → List ℕ → R (BitStream S)
  unfolding write_chars
  write_string bits st is_file value = do
    st' ←
        if is_file
        then write b st (length value * 2 % 2 ^ 8) 8
        else write b st (length value % 2 ^ 16) 16
    write_chars bits value st'

  -- primitive_type_helper<ValueT>::write_to.
  unfoldable pub helper_write_to :
      (p : Primitive) → BitStream S → Bool → ValueOf p → R (BitStream S)
  unfolding write_string
  helper_write_to (integer bits) st is_file value = write b st value bits
  helper_write_to (floating bits) st is_file value = write b st value bits
  helper_write_to (bit_integer bits) st is_file value = write b st value bits
  helper_write_to boolean st is_file value = write b st (bit_of value) 1
  helper_write_to (string bits) st is_file value = write_string bits st is_file value

  unfoldable pub read_chars : ℕ → ℕ → BitStream S → R (List ℕ × BitStream S)
  read_chars bits zero st = ok ([], st)
  read_chars bits (suc n) st = do
    (c, st') ← read b bits st bits
    (cs, end) ← read_chars bits n st'
    ok (c ∷ cs, end)

  abbrev halved : ℕ × BitStream S → ℕ × BitStream S
  halved (n, st) = (n / 2, st)

  unfoldable pub read_string : ℕ → BitStream S → Bool → R (List ℕ × BitStream S)
  unfolding read_chars
  read_string bits st is_file = do
    (n, st') ← if is_file then (read b 8 st 8 >>= λ r. ok (halved r)) else read b 16 st 16
    read_chars bits n st'

  -- primitive_type_helper<ValueT>::read_from.
  unfoldable pub helper_read_from :
      (p : Primitive) → BitStream S → Bool → R (ValueOf p × BitStream S)
  unfolding read_string
  helper_read_from (integer bits) st is_file = read b bits st bits
  helper_read_from (floating bits) st is_file = read b bits st bits
  helper_read_from (bit_integer bits) st is_file = read b bits st bits
  helper_read_from boolean st is_file = read b 1 st 1 >>= λ r. ok (not (r.0 == 0), r.1)
  helper_read_from (string bits) st is_file = read_string bits st is_file

  -- PrimitiveType<ValueT>::write_to and read_from, where the value given is a ValueT, so that the
  -- cast copies it.
  unfoldable pub write_to :
      (p : Primitive) → BitStream S → Bool → ValueOf p → Result RuntimeError (BitStream S)
  unfolding helper_write_to
  write_to p st is_file value = rethrow (λ e. runtime_error) (helper_write_to p st is_file value)

  unfoldable pub read_from :
      (p : Primitive) → BitStream S → Bool → Result RuntimeError (ValueOf p × BitStream S)
  unfolding helper_read_from
  read_from p st is_file = rethrow (λ e. runtime_error) (helper_read_from p st is_file)
