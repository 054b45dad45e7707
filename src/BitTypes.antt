-- ===== src/BitTypes.antt =====
-- BitTypes of util: integers of N bits. A BitInteger is given by the N bits of its bit-field, as an
-- unsigned number, also where it is signed, and an operand by the bits of its `type`. The operators
-- compute in `int` (32 bits), in the unsigned type of 32 bits, or in a type of 64 bits; where a signed
-- one of these overflows, or a division is by zero, the behaviour is undefined. A result is stored in
-- the bit-field modulo 2 ^ N, which for a signed one is what the compilers define.
pub mod Laws
use libki.Common.{
  ℕ, ◌+◌, ◌-◌, ◌*◌, ◌/◌, ◌%◌, ◌^◌, Bool, not, ◌&&◌, ◌||◌, ◌==◌, ltb, leb, bit_and, bit_or,
  if◌then◌else◌,
}
use libki.Common.Result.{Result, ok, fault, ◌>>=◌}

-- bits<N>: how many bits the smallest fitting type of C++ has.
unfoldable pub type_bits : ℕ → ℕ
type_bits n = if leb n 8 then 8 else if leb n 16 then 16 else if leb n 32 then 32 else 64

-- How many bits the signed type has that the operators of signed numbers compute in.
unfoldable pub arithmetic_bits : ℕ → ℕ
arithmetic_bits n = if leb n 32 then 32 else 64

-- Nothing throws here.
abbrev pub Checked : Type 0 → Type 0
Checked A = Result ⊥ A

pub record BitInteger : Type 0 where
  pub m_value : ℕ

-- A signed number, given by the `all` numbers of its type of which those from `top` on are negative,
-- plus `half`.
abbrev pub shifted : ℕ → ℕ → ℕ → ℕ → ℕ
shifted half top all v = if ltb v top then half + v else half + v - all

-- A signed number without its sign, and the sign.
abbrev magnitude : ℕ → ℕ → ℕ
magnitude k v = if ltb v (2 ^ (k - 1)) then v else 2 ^ k - v

abbrev is_negative : ℕ → ℕ → Bool
is_negative k v = leb (2 ^ (k - 1)) v

abbrev signs_differ : Bool → Bool → Bool
signs_differ a b = if a then not b else b

-- A positive or a negative number, by its magnitude, is one of the signed type.
abbrev in_arithmetic : ℕ → Bool → ℕ → Bool
in_arithmetic half negative m = if negative then leb m half else ltb m half

module _ (unsigned : Bool) (n : ℕ) where
  -- 2 ^ 31 or 2 ^ 63.
  abbrev pub half : ℕ
  half = 2 ^ (arithmetic_bits n - 1)

  -- The signed value, and that of an operand, plus `half`.
  abbrev pub signed_value : ℕ → ℕ
  signed_value v = shifted half (2 ^ (n - 1)) (2 ^ n) v

  abbrev pub signed_operand : ℕ → ℕ
  signed_operand rhs = shifted half (2 ^ (type_bits n - 1)) (2 ^ type_bits n) rhs

  -- The signed type has a number, which is given plus twice `half`.
  abbrev pub representable : ℕ → Bool
  representable s = leb half s && ltb s (half + half + half)

  -- What a bit-field of n bits keeps of a number.
  abbrev pub field : ℕ → BitInteger
  field v = record { m_value = v % 2 ^ n }

  -- The constructors.
  unfoldable pub bit_integer : BitInteger
  bit_integer = record { m_value = 0 }

  unfoldable pub copy : BitInteger → BitInteger
  copy cp = record { m_value = cp.m_value }

  unfoldable pub bit_integer_of : ℕ → BitInteger
  bit_integer_of value = field value

  unfoldable pub assign : ℕ → BitInteger → BitInteger
  assign rhs x = field rhs

  unfoldable pub add_assign : ℕ → BitInteger → Checked BitInteger
  add_assign rhs x =
      if unsigned || representable (signed_value x.m_value + signed_operand rhs)
      then ok (field (x.m_value + rhs))
      else fault

  unfoldable pub sub_assign : ℕ → BitInteger → Checked BitInteger
  sub_assign rhs x =
      if unsigned || representable (signed_value x.m_value + half + half - signed_operand rhs)
      then ok (field (x.m_value + 2 ^ n - rhs % 2 ^ n))
      else fault

  -- Unsigned numbers of 16 bits or less are multiplied as `int`.
  abbrev product_fits : ℕ → ℕ → Bool
  product_fits v rhs =
      if unsigned
      then leb 32 (type_bits n) || ltb (v * rhs) (2 ^ 31)
      else in_arithmetic half (signs_differ (is_negative n v) (is_negative (type_bits n) rhs))
          (magnitude n v * magnitude (type_bits n) rhs)

  unfoldable pub mul_assign : ℕ → BitInteger → Checked BitInteger
  mul_assign rhs x = if product_fits x.m_value rhs then ok (field (x.m_value * rhs)) else fault

  -- The quotient is cut towards zero.
  abbrev signed_quotient : Bool → ℕ → Checked BitInteger
  signed_quotient negative q =
      if in_arithmetic half negative q
      then ok (field (if negative then 2 ^ n - q % 2 ^ n else q))
      else fault

  unfoldable pub div_assign : ℕ → BitInteger → Checked BitInteger
  div_assign rhs x =
      if rhs == 0
      then fault
      else if unsigned
      then ok (field (x.m_value / rhs))
      else signed_quotient (signs_differ (is_negative n x.m_value) (is_negative (type_bits n) rhs))
          (magnitude n x.m_value / magnitude (type_bits n) rhs)

  unfoldable pub or_assign : ℕ → BitInteger → BitInteger
  or_assign rhs x = field (bit_or x.m_value rhs)

  unfoldable pub and_assign : ℕ → BitInteger → BitInteger
  and_assign rhs x = field (bit_and x.m_value rhs)

  unfoldable pub increment : BitInteger → Checked BitInteger
  unfolding add_assign
  increment x = add_assign 1 x

  unfoldable pub decrement : BitInteger → Checked BitInteger
  unfolding sub_assign
  decrement x = sub_assign 1 x

  -- The postfix forms return a copy of the old value beside the new one.
  unfoldable pub post_increment :
      BitInteger → Checked (record { result : BitInteger; value : BitInteger })
  unfolding copy increment
  post_increment x = increment x >>= λ y. ok (record { result = copy x; value = y })

  unfoldable pub post_decrement :
      BitInteger → Checked (record { result : BitInteger; value : BitInteger })
  unfolding copy decrement
  post_decrement x = decrement x >>= λ y. ok (record { result = copy x; value = y })

  -- The conversion to the type that stores it, which extends the sign.
  unfoldable pub value : BitInteger → ℕ
  value x =
      if unsigned || ltb x.m_value (2 ^ (n - 1))
      then x.m_value
      else x.m_value + 2 ^ type_bits n - 2 ^ n
