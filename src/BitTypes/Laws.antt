-- ===== src/BitTypes/Laws.antt =====
-- Integers of N bits: what is added can be subtracted again, where the signed ones do not overflow.
use libki.Common.{ℕ, ◌+◌, ◌-◌, ◌%◌, ◌^◌, ◌<◌, ◌≤◌, ◌≡◌, ◌⊎◌, Bool, true}
use libki.Common.Result.{ok}
use libki.BitTypes.{
  BitInteger, type_bits, half, signed_value, signed_operand, add_assign, sub_assign, increment,
  decrement, post_increment, post_decrement,
}

-- The value is that of n bits.
abbrev pub Fits : ℕ → BitInteger → Type 0
Fits n x = x.m_value < 2 ^ n

-- The numbers are unsigned, or the sum of the signed value and the signed operand is a number of n
-- bits.
abbrev pub Holds : Bool → ℕ → ℕ → BitInteger → Type 0
Holds unsigned n a x =
    (unsigned ≡ true)
    ⊎ ((half unsigned n + half unsigned n
          ≤ signed_value unsigned n x.m_value + signed_operand unsigned n a + 2 ^ (n - 1))
        × (signed_value unsigned n x.m_value + signed_operand unsigned n a
            < half unsigned n + half unsigned n + 2 ^ (n - 1)))

-- The sum is returned, it is the sum of the signed values if they are signed, and subtracting from
-- it gives the old value.
abbrev pub Undone : Bool → ℕ → ℕ → BitInteger → BitInteger → Type 0
Undone unsigned n a x y =
    (add_assign unsigned n a x ≡ ok y)
    × Fits n y
    × ((unsigned ≡ true)
        ⊎ (signed_value unsigned n y.m_value + half unsigned n
            ≡ signed_value unsigned n x.m_value + signed_operand unsigned n a))
    × (sub_assign unsigned n a y ≡ ok x)

module _ (unsigned : Bool) (n a : ℕ) (x : BitInteger) (some_bits : 0 < n) (few_bits : n ≤ 64)
    (operand : a < 2 ^ type_bits n) (fits : Fits n x) where
  abbrev sum : BitInteger
  sum = record { m_value = (x.m_value + a) % 2 ^ n }

  abbrev bits : ℕ → BitInteger
  bits v = record { m_value = v }

-- The four forms of increment and decrement on a value and on the next one.
abbrev pub Counted : Bool → ℕ → BitInteger → BitInteger → Type 0
Counted unsigned n x y =
    (increment unsigned n x ≡ ok y)
    × (decrement unsigned n y ≡ ok x)
    × (post_increment unsigned n x ≡ ok (record { result = x; value = y }))
    × (post_decrement unsigned n y ≡ ok (record { result = y; value = x }))
