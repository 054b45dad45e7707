-- ===== src/Dml/Bytes/Laws.antt =====
-- The bytes of numbers: their count, their order, and how the fields' test of the host's order works.
use libki.Common.{
  ℕ, zero, suc, ◌+◌, ◌*◌, ◌/◌, ◌%◌, ◌^◌, ◌<◌, ◌≡◌, ◌↔◌, ◌⊎◌, refl, ap, arith, bit_and, [], ◌∷◌,
  if◌then◌else◌, length, false,
}
use libki.Common.Bits.{
  test_bit_ext, test_bit-and, test_bit-shr, test_bit-shl, test_bit-mask, test_bit-mod,
  test_bit-lt-two,
}
use libki.Dml.Bytes.{memory, value_of, write_ushrt, write_int, char_eq}
use native.Mathlib.Nat.{pow-suc, mod-eq_of_lt}

pub length-memory : (size value : ℕ) → length (memory size value) ≡ size
unfolding memory
length-memory zero value = refl
length-memory (suc size) value = ap suc (length-memory size (value / 256))

pub value_of-memory : (size value : ℕ) → value < 256 ^ size → value_of (memory size value) ≡ value
unfolding memory value_of
value_of-memory zero value h = omega arith
value_of-memory (suc size) value h =
    omega (arith, value_of-memory size (value / 256) (omega (arith, pow-suc 256 size)))

-- The highest byte of a value of k + 8 bits.
pub high_byte :
    (k value : ℕ) → value < 2 ^ (k + 8) → bit_and value (255 * 2 ^ k) / 2 ^ k ≡ value / 2 ^ k
high_byte k value h = test_bit_ext _ _ λ i. ground (
  arith,
  test_bit-shr i k (bit_and value (255 * 2 ^ k)),
  test_bit-shr i k value,
  test_bit-and (k + i) value (255 * 2 ^ k),
  test_bit-shl (k + i) k 255,
  test_bit-mask i 8,
  test_bit-lt-two (k + i) value,
  test_bit-mod (k + i) (k + 8) value,
  mod-eq_of_lt h,
)

-- A USHRT is written low byte first, whatever the test says.
pub write_ushrt_lem :
    (value : ℕ) → value < 2 ^ 16 → write_ushrt value ≡ (value % 256) ∷ (value / 256) ∷ []
unfolding write_ushrt memory
write_ushrt_lem value h = ground (arith, high_byte 8 value h)

-- An INT or UINT is reversed exactly when its lowest and its highest byte agree below 128.
pub write_int_lem :
    (value : ℕ)
    → value < 2 ^ 32
    → write_int value ≡ (
        if char_eq (value % 256) (value / 2 ^ 24)
        then (value / 2 ^ 24) ∷ (value / 2 ^ 16 % 256) ∷ (value / 256 % 256) ∷ (value % 256) ∷ []
        else (value % 256) ∷ (value / 256 % 256) ∷ (value / 2 ^ 16 % 256) ∷ (value / 2 ^ 24) ∷ [])
unfolding write_int memory
write_int_lem value h = ground (arith, high_byte 24 value h)

abbrev pub first_byte : ℕ → ℕ
first_byte v = v % 256

abbrev pub second_byte : ℕ → ℕ
second_byte v = v / 2 ^ 8 % 256

abbrev pub third_byte : ℕ → ℕ
third_byte v = v / 2 ^ 16 % 256

abbrev pub fourth_byte : ℕ → ℕ
fourth_byte v = v / 2 ^ 24

-- For a number below 2 ^ 32: the four bytes that an INT or UINT field writes mean the number,
-- lowest byte first, exactly if its lowest byte is 128 or more or differs from its highest byte,
-- or its two middle bytes are equal.
pub write_int_exact :
    (value : ℕ)
    → value < 2 ^ 32
    → (value_of (write_int value) ≡ value) ↔ (
        (char_eq (first_byte value) (fourth_byte value) ≡ false)
        ⊎ (second_byte value ≡ third_byte value))
unfolding value_of
write_int_exact value h = ground (arith, write_int_lem value h)

pub value_of-write_ushrt : (value : ℕ) → value < 2 ^ 16 → value_of (write_ushrt value) ≡ value
unfolding value_of
value_of-write_ushrt value h = rw (write_ushrt_lem value h) (omega arith)

pub length-write_int : (value : ℕ) → value < 2 ^ 32 → length (write_int value) ≡ 4
length-write_int value h = ground (arith, write_int_lem value h)

pub length-write_ushrt : (value : ℕ) → value < 2 ^ 16 → length (write_ushrt value) ≡ 2
length-write_ushrt value h = rw (write_ushrt_lem value h) refl
