-- ===== src/Common/Bits.antt =====
-- The bits of a natural number, and what the operators of C++ do to them.
use Prim.Native.Nat.{
  ℕ, zero, suc, ◌+◌, ◌-◌, ◌*◌, ◌/◌, ◌%◌, ◌^◌, ◌≤◌, ◌<◌, min, max, bit_and, bit_or,
}
use Prim.Native.Nat.{digits, bit_and-bitwise, bit_or-bitwise}
use mathlib.Core.Path.{◌≡◌, refl, ◌∙◌, ap}
use native.Mathlib.Omega.{arith}
use native.Mathlib.Nat.{pow-suc, one-le-pow, div-div-eq-div-mul}
use libki.Common.Tests.{ltb, if◌then◌else◌}

-- Bit `i` of `x`, counted from the least significant one.
unfoldable pub test_bit : ℕ → ℕ → ℕ
test_bit zero x = x % 2
test_bit (suc i) x = test_bit i (x / 2)

-- The library's recursion on binary digits gives the same result with any sufficient fuel.
module _ (rest : ℕ → ℕ) (op : ℕ → ℕ → ℕ) where
  digits_any_fuel : (x y k l : ℕ) → x ≤ k → x ≤ l → digits rest op k x y ≡ digits rest op l x y
  digits_any_fuel zero y zero zero p q = refl
  digits_any_fuel zero y zero (suc l) p q = refl
  digits_any_fuel zero y (suc k) zero p q = refl
  digits_any_fuel zero y (suc k) (suc l) p q = refl
  digits_any_fuel (suc x) y zero l p q = absurd (omega arith)
  digits_any_fuel (suc x) y (suc k) zero p q = absurd (omega arith)
  digits_any_fuel (suc x) y (suc k) (suc l) p q =
      rw (digits_any_fuel (suc x / 2) (y / 2) k l (omega arith) (omega arith))

or_digit : (x y : ℕ) → bit_or x y ≡ bit_or (x / 2) (y / 2) * 2 + max (x % 2) (y % 2)
or_digit zero y = omega (arith, bit_or-bitwise 0 y, bit_or-bitwise 0 (y / 2))
or_digit (suc x) y = omega (
  arith,
  bit_or-bitwise (suc x) y,
  bit_or-bitwise (suc x / 2) (y / 2),
  digits_any_fuel (λ b. b) max (suc x / 2) (y / 2) x (suc x / 2) (omega arith) (omega arith),
)

and_digit : (x y : ℕ) → bit_and x y ≡ bit_and (x / 2) (y / 2) * 2 + min (x % 2) (y % 2)
and_digit zero y = omega (arith, bit_and-bitwise 0 y, bit_and-bitwise 0 (y / 2))
and_digit (suc x) y = omega (
  arith,
  bit_and-bitwise (suc x) y,
  bit_and-bitwise (suc x / 2) (y / 2),
  digits_any_fuel (λ b. 0) min (suc x / 2) (y / 2) x (suc x / 2) (omega arith) (omega arith),
)

or_halves :
    (x y : ℕ) → (bit_or x y / 2 ≡ bit_or (x / 2) (y / 2)) × (bit_or x y % 2 ≡ max (x % 2) (y % 2))
or_halves x y = (omega (arith, or_digit x y), omega (arith, or_digit x y))

and_halves :
    (x y : ℕ)
    → (bit_and x y / 2 ≡ bit_and (x / 2) (y / 2)) × (bit_and x y % 2 ≡ min (x % 2) (y % 2))
and_halves x y = (omega (arith, and_digit x y), omega (arith, and_digit x y))

pub test_bit-or : (i x y : ℕ) → test_bit i (bit_or x y) ≡ max (test_bit i x) (test_bit i y)
unfolding test_bit
test_bit-or zero x y = (or_halves x y).1
test_bit-or (suc i) x y = rw ((or_halves x y).0) (test_bit-or i (x / 2) (y / 2))

pub test_bit-and : (i x y : ℕ) → test_bit i (bit_and x y) ≡ min (test_bit i x) (test_bit i y)
unfolding test_bit
test_bit-and zero x y = (and_halves x y).1
test_bit-and (suc i) x y = rw ((and_halves x y).0) (test_bit-and i (x / 2) (y / 2))

pub test_bit-zero : (i : ℕ) → test_bit i 0 ≡ 0
unfolding test_bit
test_bit-zero zero = refl
test_bit-zero (suc i) = test_bit-zero i

pub test_bit-lt-two : (i x : ℕ) → test_bit i x < 2
unfolding test_bit
test_bit-lt-two zero x = omega arith
test_bit-lt-two (suc i) x = test_bit-lt-two i (x / 2)

-- Two numbers with the same bits are equal.
test_bit_ext_fuel : (k x y : ℕ) → x ≤ k → y ≤ k → ((i : ℕ) → test_bit i x ≡ test_bit i y) → x ≡ y
unfolding test_bit
test_bit_ext_fuel zero x y p q h = omega arith
test_bit_ext_fuel (suc k) x y p q h =
    omega
      (arith, h 0, test_bit_ext_fuel k (x / 2) (y / 2) (omega arith) (omega arith) (λ i. h (suc i)))

pub test_bit_ext : (x y : ℕ) → ((i : ℕ) → test_bit i x ≡ test_bit i y) → x ≡ y
test_bit_ext x y h = test_bit_ext_fuel (x + y) x y (omega arith) (omega arith) h

div-pow-suc : (x k : ℕ) → x / 2 ^ suc k ≡ x / 2 / 2 ^ k
div-pow-suc x k = grind (arith, pow-suc 2 k, div-div-eq-div-mul x 2 (2 ^ k))

mod-pow-suc : (x k : ℕ) → x % 2 ^ suc k ≡ x / 2 % 2 ^ k * 2 + x % 2
mod-pow-suc x k = grind (arith, pow-suc 2 k, div-div-eq-div-mul x 2 (2 ^ k))

mod-pow-suc_halves : (x k : ℕ) → (x % 2 ^ suc k / 2 ≡ x / 2 % 2 ^ k) × (x % 2 ^ suc k % 2 ≡ x % 2)
mod-pow-suc_halves x k = (omega (arith, mod-pow-suc x k), omega (arith, mod-pow-suc x k))

-- `x >> k`.
pub test_bit-shr : (i k x : ℕ) → test_bit i (x / 2 ^ k) ≡ test_bit (k + i) x
unfolding test_bit
test_bit-shr i zero x = ground (arith)
test_bit-shr i (suc k) x =
    rw (div-pow-suc x k) (test_bit-shr i k (x / 2) ∙ ap (λ (t : ℕ). test_bit t x) shifted)
  where
    shifted : suc (k + i) ≡ suc k + i
    shifted = omega arith

-- `x << k`.
pub test_bit-shl :
    (i k x : ℕ) → test_bit i (x * 2 ^ k) ≡ (if ltb i k then 0 else test_bit (i - k) x)
unfolding test_bit
test_bit-shl i zero x = ground arith
test_bit-shl zero (suc k) x = ground (arith, even)
  where
    even : x * 2 ^ suc k % 2 ≡ 0
    even = omega (arith, pow-suc 2 k, ap (λ (t : ℕ). x * t) (pow-suc 2 k))
test_bit-shl (suc i) (suc k) x = ground (arith, halves, test_bit-shl i k x)
  where
    halves : x * 2 ^ suc k / 2 ≡ x * 2 ^ k
    halves = omega (arith, pow-suc 2 k, ap (λ (t : ℕ). x * t) (pow-suc 2 k))

-- A conversion to `k` bits.
pub test_bit-mod : (i k x : ℕ) → test_bit i (x % 2 ^ k) ≡ (if ltb i k then test_bit i x else 0)
unfolding test_bit
test_bit-mod i zero x = ground (arith, test_bit-zero i)
test_bit-mod zero (suc k) x = ground (arith, mod-pow-suc_halves x k)
test_bit-mod (suc i) (suc k) x = ground (arith, mod-pow-suc_halves x k, test_bit-mod i k (x / 2))

-- The mask of the lowest `k` bits, `(1 << k) - 1`.
pub test_bit-mask : (i k : ℕ) → test_bit i (2 ^ k - 1) ≡ (if ltb i k then 1 else 0)
unfolding test_bit
test_bit-mask i zero = ground (arith, test_bit-zero i)
test_bit-mask zero (suc k) = ground (arith, pow-suc 2 k, one-le-pow k 2)
test_bit-mask (suc i) (suc k) = ground (arith, halves, test_bit-mask i k)
  where
    halves : (2 ^ suc k - 1) / 2 ≡ 2 ^ k - 1
    halves = omega (arith, pow-suc 2 k, one-le-pow k 2)

-- The complement in a word of `k` bits.
pub test_bit-not : (i k x : ℕ) → x < 2 ^ k → i < k → test_bit i (2 ^ k - 1 - x) ≡ 1 - test_bit i x
unfolding test_bit
test_bit-not i zero x h p = absurd (omega arith)
test_bit-not zero (suc k) x h p = omega (arith, pow-suc 2 k, one-le-pow k 2)
test_bit-not (suc i) (suc k) x h p = ground (arith, halves, test_bit-not i k (x / 2))
  where
    halves : ((2 ^ suc k - 1 - x) / 2 ≡ 2 ^ k - 1 - x / 2) × (x / 2 < 2 ^ k)
    halves = omega (arith, pow-suc 2 k, one-le-pow k 2)
