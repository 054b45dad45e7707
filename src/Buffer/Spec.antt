-- ===== src/Buffer/Spec.antt =====
-- What a buffer means: a sequence of bits, which a read takes as a number, lowest bit first.
use libki.Common.{
  ℕ, zero, suc, ◌+◌, ◌*◌, ◌/◌, ◌%◌, ◌^◌, ◌<◌, ◌≡◌, arith, List, ltb, if◌then◌else◌, get_or,
}
use libki.Common.Bits.{test_bit, test_bit-zero, test_bit-lt-two, test_bit-mod, test_bit_ext}

unfoldable pub bit_at : List ℕ → ℕ → ℕ
bit_at buf q = test_bit (q % 8) (get_or buf (q / 8) 0)

unfoldable pub bits_at : List ℕ → ℕ → ℕ → ℕ
bits_at buf q zero = 0
bits_at buf q (suc n) = bit_at buf q + 2 * bits_at buf (q + 1) n

abbrev pub IsBytes : List ℕ → Type 0
IsBytes buf = (j : ℕ) → get_or buf j 0 < 256

pub bit_at-lt-two : (buf : List ℕ) (q : ℕ) → bit_at buf q < 2
unfolding bit_at
bit_at-lt-two buf q = test_bit-lt-two (q % 8) (get_or buf (q / 8) 0)

pub test_bit-bits_at :
    (buf : List ℕ) (n q i : ℕ)
    → test_bit i (bits_at buf q n) ≡ (if ltb i n then bit_at buf (q + i) else 0)
unfolding bits_at test_bit
test_bit-bits_at buf zero q i = ground (arith, test_bit-zero i)
test_bit-bits_at buf (suc n) q zero = ground (arith, bit_at-lt-two buf q)
test_bit-bits_at buf (suc n) q (suc i) =
    ground (arith, bit_at-lt-two buf q, halved, test_bit-bits_at buf n (q + 1) i)
  where
    halved : (bit_at buf q + 2 * bits_at buf (q + 1) n) / 2 ≡ bits_at buf (q + 1) n
    halved = omega (arith, bit_at-lt-two buf q)

-- Runs with the same bits are the same number.
pub bits_at_ext :
    (a b : List ℕ) (q n : ℕ)
    → ((i : ℕ) → i < n → bit_at a (q + i) ≡ bit_at b (q + i))
    → bits_at a q n ≡ bits_at b q n
bits_at_ext a b q n h =
    test_bit_ext _ _ λ i. ground (arith, test_bit-bits_at a n q i, test_bit-bits_at b n q i, h i)

-- A run with the bits of a value is what the value has in as many bits.
pub bits_at-eq-mod :
    (a : List ℕ) (q n value : ℕ)
    → ((i : ℕ) → i < n → bit_at a (q + i) ≡ test_bit i value)
    → bits_at a q n ≡ value % 2 ^ n
bits_at-eq-mod a q n value h =
    test_bit_ext _ _ λ i. ground (arith, test_bit-bits_at a n q i, test_bit-mod i n value, h i)
