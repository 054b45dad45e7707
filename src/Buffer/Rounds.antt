-- ===== src/Buffer/Rounds.antt =====
-- One round of the loops of BitBuffer::read and BitBuffer::write, bit by bit.
use libki.Common.{
  ℕ, ◌+◌, ◌-◌, ◌*◌, ◌/◌, ◌%◌, ◌^◌, ◌≤◌, ◌<◌, ◌≡◌, arith, List, bit_and, bit_or, ltb, leb,
  if◌then◌else◌, ◌&&◌,
}
use libki.Common.Bits.{
  test_bit, test_bit-or, test_bit-and, test_bit-shl, test_bit-shr, test_bit-mod, test_bit-mask,
  test_bit-not, test_bit-lt-two, test_bit_ext,
}
use libki.Buffer.{u8, shl64, low_mask, bits_value, written_byte}
use libki.Buffer.Spec.{bit_at, bits_at, test_bit-bits_at}

-- The mask of `count` bits from `bit` on.
test_bit-field_mask :
    (i w count bit : ℕ)
    → test_bit i (low_mask count * 2 ^ bit % 2 ^ w)
      ≡ (if ltb i w && leb bit i && ltb i (bit + count) then 1 else 0)
test_bit-field_mask i w count bit = ground (
  arith,
  test_bit-mod i w (low_mask count * 2 ^ bit),
  test_bit-shl i bit (low_mask count),
  test_bit-mask (i - bit) count,
)

pub test_bit-bits_value :
    (i x count bit : ℕ)
    → bit + count ≤ 8
    → test_bit i (bits_value x count bit) ≡ (if ltb i count then test_bit (bit + i) x else 0)
unfolding bits_value
test_bit-bits_value i x count bit h = ground (
  arith,
  test_bit-mod i 8 (bit_and x (u8 (low_mask count * 2 ^ bit)) / 2 ^ bit),
  test_bit-shr i bit (bit_and x (u8 (low_mask count * 2 ^ bit))),
  test_bit-and (bit + i) x (u8 (low_mask count * 2 ^ bit)),
  test_bit-field_mask (bit + i) 8 count bit,
  test_bit-lt-two (bit + i) x,
)

test_bit-shl64 :
    (i x k : ℕ) → test_bit i (shl64 x k) ≡ (if ltb i 64 && leb k i then test_bit (i - k) x else 0)
test_bit-shl64 i x k = ground (arith, test_bit-mod i 64 (x * 2 ^ k), test_bit-shl i k x)

-- The part of the value that a round of `write` takes.
abbrev value_byte : ℕ → ℕ → ℕ → ℕ
value_byte value written count =
    u8 (bit_and (bit_and value (shl64 (low_mask count) written) / 2 ^ written) 0xff)

test_bit-value_byte :
    (i value written count : ℕ)
    → count ≤ 8
    → written + count ≤ 64
    → test_bit i (value_byte value written count)
      ≡ (if ltb i count then test_bit (written + i) value else 0)
test_bit-value_byte i value written count h k = ground (
  arith,
  test_bit-mod i 8 (bit_and (bit_and value (shl64 (low_mask count) written) / 2 ^ written) 0xff),
  test_bit-and i (bit_and value (shl64 (low_mask count) written) / 2 ^ written) 0xff,
  test_bit-mask i 8,
  test_bit-shr i written (bit_and value (shl64 (low_mask count) written)),
  test_bit-and (written + i) value (shl64 (low_mask count) written),
  test_bit-field_mask (written + i) 64 count written,
  test_bit-lt-two (written + i) value,
)

mask_fits : (count bit : ℕ) → shl64 (low_mask count) bit < 2 ^ 64
mask_fits count bit = omega arith

-- What `current` keeps.
test_bit-kept :
    (i current count bit : ℕ)
    → i < 8
    → test_bit i (bit_and current (bit_and (2 ^ 64 - 1 - shl64 (low_mask count) bit) 0xff))
      ≡ (if leb bit i && ltb i (bit + count) then 0 else test_bit i current)
test_bit-kept i current count bit h = ground (
  arith,
  test_bit-and i current (bit_and (2 ^ 64 - 1 - shl64 (low_mask count) bit) 0xff),
  test_bit-and i (2 ^ 64 - 1 - shl64 (low_mask count) bit) 0xff,
  test_bit-mask i 8,
  test_bit-not i 64 (shl64 (low_mask count) bit) (mask_fits count bit) (omega arith),
  test_bit-field_mask i 64 count bit,
  test_bit-lt-two i current,
)

pub test_bit-written_byte :
    (i current value written count bit : ℕ)
    → i < 8
    → bit + count ≤ 8
    → written + count ≤ 64
    → test_bit i (written_byte current value written count bit) ≡ (
        if leb bit i && ltb i (bit + count)
        then test_bit (written + (i - bit)) value
        else test_bit i current)
unfolding written_byte
test_bit-written_byte i current value written count bit h k l = ground (
  arith,
  test_bit-mod i 8 (
      bit_or (bit_and current (bit_and (2 ^ 64 - 1 - shl64 (low_mask count) bit) 0xff))
        (u8 (value_byte value written count * 2 ^ bit))),
  test_bit-or i (bit_and current (bit_and (2 ^ 64 - 1 - shl64 (low_mask count) bit) 0xff))
      (u8 (value_byte value written count * 2 ^ bit)),
  test_bit-kept i current count bit,
  test_bit-mod i 8 (value_byte value written count * 2 ^ bit),
  test_bit-shl i bit (value_byte value written count),
  test_bit-value_byte (i - bit) value written count,
)

pub written_byte-lt :
    (current value written count bit : ℕ) → written_byte current value written count bit < 256
unfolding written_byte
written_byte-lt current value written count bit = omega arith

-- A round of `read` puts the next bits above those that it has.
pub bits_at-round :
    (buf : List ℕ) (q r count x bit : ℕ)
    → bit + count ≤ 8
    → r + count ≤ 64
    → ((i : ℕ) → i < count → bit_at buf (q + r + i) ≡ test_bit (bit + i) x)
    → bit_or (bits_at buf q r) (shl64 (bits_value x count bit) r) ≡ bits_at buf q (r + count)
bits_at-round buf q r count x bit h k same = test_bit_ext _ _ λ i. ground (
  arith,
  test_bit-or i (bits_at buf q r) (shl64 (bits_value x count bit) r),
  test_bit-bits_at buf r q i,
  test_bit-shl64 i (bits_value x count bit) r,
  test_bit-bits_value (i - r) x count bit,
  test_bit-bits_at buf (r + count) q i,
  same (i - r),
)
