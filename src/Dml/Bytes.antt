-- ===== src/Dml/Bytes.antt =====
-- The bytes of a number in memory (util/ValueBytes), and the numeric fields of dml/types.
-- The host is little-endian and its `char` is signed, as on x86; a value of a signed type, a float or
-- a double is the unsigned number with the same bytes.
pub mod Laws
pub mod RoundTrip
use libki.Common.{
  ℕ, zero, suc, ◌+◌, ◌*◌, ◌/◌, ◌%◌, ◌^◌, bit_and, List, [], ◌∷◌, Bool, ltb, ◌==◌, ◌&&◌,
  if◌then◌else◌, get_or, ◌≡◌, ap,
}
use libki.Io
use libki.Io.{IoStream}
use mathlib.Core.List.{reverse}

-- dml::parse_error and dml::value_error, which carry a message only.
pub data DmlError : Type 0 where
  parse_error value_error : DmlError

-- A computation that may throw.
pub data Try {ℓ} (E : Type ℓ) (A : Type ℓ) : Type ℓ where
  done : A → Try E A
  raise : E → Try E A

-- One that reads from a stream, which keeps its state when an exception leaves the computation.
abbrev pub Reader : Type 0 → Type 0 → Type 0
Reader E A = IoStream → Try E A × IoStream

abbrev pub continue : {E A B : Type 0} → (A → Reader E B) → Try E A × IoStream → Try E B × IoStream
continue f (done a, s) = f a s
continue f (raise e, s) = (raise e, s)

infixl 5 ◌>>=◌
abbrev pub ◌>>=◌ : {E A B : Type 0} → Reader E A → (A → Reader E B) → Reader E B
◌>>=◌ m f s = continue f (m s)

abbrev pub return : {E A : Type 0} → A → Reader E A
return a s = (done a, s)

-- A part of a computation whose outcome is known.
module _ {E A B : Type 0} (m : Reader E A) (f : A → Reader E B) (s s' : IoStream) where
  pub bind_done : (a : A) → m s ≡ (done a, s') → (m >>= f) s ≡ f a s'
  bind_done a e = ap (continue f) e

  pub bind_raise : (x : E) → m s ≡ (raise x, s') → (m >>= f) s ≡ (raise x, s')
  bind_raise x e = ap (continue f) e

-- ValueBytes<ValueT>: `value` stored, and read through `buff`.
unfoldable pub memory : ℕ → ℕ → List ℕ
memory zero value = []
memory (suc size) value = (value % 256) ∷ memory size (value / 256)

unfoldable pub value_of : List ℕ → ℕ
value_of [] = 0
value_of (b ∷ bs) = b + 256 * value_of bs

-- `buff[0] == k` for a `char` and a number below 256: a char of 128 or more is negative.
abbrev pub char_eq : ℕ → ℕ → Bool
char_eq c k = ltb c 128 && c == k

-- The bytes that UShrtField, ShrtField, IntField, UIntField and GidField write: they are reversed
-- if the first byte in memory is the value's highest byte.
unfoldable pub write_number : ℕ → ℕ → ℕ → ℕ → List ℕ
unfolding memory
write_number size mask shift value =
    let buff = memory size value in
    if char_eq (get_or buff 0 0) (bit_and value mask / 2 ^ shift) then reverse buff else buff

unfoldable pub write_ushrt : ℕ → List ℕ
unfolding write_number
write_ushrt value = write_number 2 0xff00 8 value

unfoldable pub write_int : ℕ → List ℕ
unfolding write_number
write_int value = write_number 4 0xff00_0000 24 value

unfoldable pub write_gid : ℕ → List ℕ
unfolding write_number
write_gid value = write_number 8 0xff00_0000_0000_0000 56 value

-- `endianness_check`: is the high byte of 0x0102 the first in memory?
unfoldable pub big_endian_check : Bool
unfolding memory
big_endian_check = char_eq (get_or (memory 2 0x0102) 0 0) 0x01

-- FltField and DblField reverse by that check.
unfoldable pub write_float : ℕ → ℕ → List ℕ
unfolding memory big_endian_check
write_float size value =
    let buff = memory size value in if big_endian_check then reverse buff else buff

-- `read_from` of the fields of a fixed size.
unfoldable pub read_number : ℕ → Reader DmlError ℕ
unfolding value_of big_endian_check
read_number size s =
    let (buff, s') = Io.read size s in
    if s'.fail
    then (raise parse_error, s')
    else (done (value_of (if big_endian_check then reverse buff else buff)), s')
