-- ===== src/Position/Laws.antt =====
-- buffer_pos counts bits: its operations against the number of bits before a position.
use libki.Common.{ℕ, ◌+◌, ◌-◌, ◌*◌, ◌/◌, ◌%◌, ◌^◌, ◌≤◌, ◌<◌, ◌≡◌, ◌↔◌, arith}
use libki.Common.Int.{pos}
use libki.Position.{BufferPos, copy, as_bytes, as_bits, add_pos, add_int, sub_int, add_assign}

-- The bits before the position, counted without a bound.
abbrev pub offset : BufferPos → ℕ
offset p = p.byte * 8 + p.bit

abbrev pub IsNormal : BufferPos → Type 0
IsNormal p = p.bit < 8

-- Positions below 2 ^ 29 bytes, the ones whose bits a uint32_t can count.
abbrev pub max_bits : ℕ
max_bits = 2 ^ 32

pub copy_normal : (p : BufferPos) → IsNormal p → copy p ≡ p
unfolding copy
copy_normal p h = ground arith

pub add_int_lem :
    (p : BufferPos) (n : ℕ)
    → IsNormal p
    → offset p + n < max_bits
    → IsNormal (add_int p (pos n)) × (offset (add_int p (pos n)) ≡ offset p + n)
unfolding add_int
add_int_lem p n h b = ground arith

pub add_assign_lem :
    (p : BufferPos) (n : ℕ)
    → IsNormal p
    → offset p + n < max_bits
    → IsNormal (add_assign p (pos n)) × (offset (add_assign p (pos n)) ≡ offset p + n)
unfolding add_assign
add_assign_lem p n h b = ground arith

pub add_pos_lem :
    (p q : BufferPos)
    → IsNormal p
    → IsNormal q
    → offset p + offset q < max_bits
    → IsNormal (add_pos p q) × (offset (add_pos p q) ≡ offset p + offset q)
unfolding add_pos
add_pos_lem p q h k b = ground arith

pub as_bytes_lem :
    (p : BufferPos) → IsNormal p → offset p + 8 < max_bits → as_bytes p ≡ (offset p + 7) / 8
unfolding as_bytes
as_bytes_lem p h b = ground arith

pub as_bits_lem : (p : BufferPos) → offset p < max_bits → as_bits p ≡ offset p
unfolding as_bits
as_bits_lem p b = ground arith

-- Subtracting bits goes back by as many, although the bit of the result may be 8.
pub sub_int_lem :
    (p : BufferPos) (n : ℕ)
    → IsNormal p
    → offset p < max_bits
    → n ≤ offset p
    → (as_bits (sub_int p (pos n)) ≡ offset p - n) × ((sub_int p (pos n)).bit ≤ 8)
unfolding sub_int as_bits
sub_int_lem p n h b k = ground arith

-- For a position with a bit below 8: subtracting n bits leaves a bit of 8 exactly if n is more
-- than the bit and differs from it by a multiple of 8.
pub sub_int-bit-eight :
    (p : BufferPos) (n : ℕ)
    → IsNormal p
    → ((sub_int p (pos n)).bit ≡ 8) ↔ ((p.bit < n) × ((n - p.bit) % 8 ≡ 0))
unfolding sub_int
sub_int-bit-eight p n h = ground arith

-- For a position below 2 ^ 32 bits with a bit below 8, from which no more bits are subtracted
-- than it has before it: a copy of the difference has a bit below 8 and is exactly n bits before
-- the position.
pub copy-sub_int :
    (p : BufferPos) (n : ℕ)
    → IsNormal p
    → offset p < max_bits
    → n ≤ offset p
    → IsNormal (copy (sub_int p (pos n))) × (offset (copy (sub_int p (pos n))) ≡ offset p - n)
unfolding copy sub_int
copy-sub_int p n h b k = ground arith

-- For a position with a bit below 8 and n bits such that the sum is more than 8 bits below 2 ^
-- 32: adding and then subtracting n bits leaves as_bits and as_bytes as they were.
pub sub_int-add_int :
    (p : BufferPos) (n : ℕ)
    → IsNormal p
    → offset p + n + 8 < max_bits
    → (as_bits (sub_int (add_int p (pos n)) (pos n)) ≡ as_bits p)
      × (as_bytes (sub_int (add_int p (pos n)) (pos n)) ≡ as_bytes p)
unfolding as_bits as_bytes sub_int
sub_int-add_int p n h b = ground (arith, add_int_lem p n)
