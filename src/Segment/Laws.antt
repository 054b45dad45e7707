-- ===== src/Segment/Laws.antt =====
-- Segments of a BitBuffer: when one is made, and which reads through it stay in the buffer.
use libki.Common.{
  ℕ, ◌+◌, ◌*◌, ◌/◌, ◌%◌, ◌^◌, ◌≤◌, ◌<◌, ◌≡◌, arith, List, ltb, leb, if◌then◌else◌, length,
}
use libki.Common.Int.{pos}
use libki.Common.Result.{ok, throw, fault}
use libki.Position.{BufferPos, add_pos, add_int, as_bytes, to_int, buffer_pos}
use libki.Position.Laws.{offset, IsNormal, max_bits, add_int_lem, add_pos_lem, as_bytes_lem}
use libki.Buffer.{cannot_read, segment_outside, segment_too_long}
use libki.Buffer.Spec.{bits_at}
use libki.Buffer.Reads.{read_lem, read_outside}
use libki.Interface.{bit_buffer_ops, overflows, read_value}
use libki.Interface.Typed.{InScope}
use libki.Segment.{BitBufferSegment, bit_buffer_segment, segment_ops, size, read}
use native.Mathlib.Decide.{dec_le}

-- For a start with a bit below 8, a size below 2 ^ 31 bits, and an end more than 8 bits below 2 ^
-- 32: the constructor of a segment throws segment_outside if the start is not inside the buffer,
-- throws segment_too_long if the end is behind the buffer, and otherwise returns the segment.
pub bit_buffer_segment_lem :
    (buf : List ℕ) (from : BufferPos) (bitsize : ℕ)
    → IsNormal from
    → bitsize < 2 ^ 31
    → offset from + bitsize + 8 < max_bits
    → bit_buffer_segment bit_buffer_ops buf from bitsize ≡ (
        if leb (8 * length buf) (offset from)
        then throw segment_outside
        else if ltb (8 * length buf) (offset from + bitsize)
        then throw segment_too_long
        else ok (record { m_buffer = buf; m_from = from; m_bitsize = bitsize }))
unfolding bit_buffer_segment bit_buffer_ops to_int
bit_buffer_segment_lem buf from bitsize h k small =
    let moved = add_int_lem from bitsize h (omega arith) in
    ground
      (arith, moved, as_bytes_lem (add_int from (pos bitsize)) moved.0 (omega (arith, moved.1)))

pub size_lem :
    (g : BitBufferSegment (List ℕ))
    → g.m_bitsize + 8 < max_bits
    → (segment_ops bit_buffer_ops).size g ≡ (g.m_bitsize + 7) / 8
unfolding segment_ops size as_bytes buffer_pos
size_lem g h = ground arith

-- The test of a typed read through a segment.
overflows_lem :
    (g : BitBufferSegment (List ℕ)) (p : BufferPos) (n : ℕ)
    → InScope p n
    → g.m_bitsize + 8 < max_bits
    → overflows (segment_ops bit_buffer_ops) g p n ≡ ltb ((g.m_bitsize + 7) / 8 * 8) (offset p + n)
unfolding overflows
overflows_lem g p n s h =
    let moved = add_int_lem p n s.normal (omega arith) in
    ground (
      arith,
      size_lem g h,
      moved,
      as_bytes_lem (add_int p (pos n)) moved.0 (omega (arith, moved.1)),
    )

-- A segment that lies in its buffer and whose sums of positions have room in a uint32_t.
pub record IsInside (g : BitBufferSegment (List ℕ)) : Type 0 where
  pub from_normal : IsNormal g.m_from
  pub ends : offset g.m_from + g.m_bitsize ≤ 8 * length g.m_buffer
  pub small : offset g.m_from + g.m_bitsize + 16 < max_bits

-- Of a segment that lies inside its buffer and starts on a byte, more than 16 bits below 2 ^ 32,
-- a typed read of n bits, at most 64, at a position with a bit below 8 that ends more than 8 bits
-- below 2 ^ 32, throws if it ends behind the segment's last whole byte, and otherwise returns the
-- run of the buffer's bits at the sum of the two positions, modulo 2 to the type's width.
pub read_value_aligned :
    (width : ℕ) (g : BitBufferSegment (List ℕ)) (p : BufferPos) (n : ℕ)
    → IsInside g
    → g.m_from.bit ≡ 0
    → InScope p n
    → read_value (segment_ops bit_buffer_ops) width g p n ≡ (
        if ltb ((g.m_bitsize + 7) / 8 * 8) (offset p + n)
        then throw cannot_read
        else ok (bits_at g.m_buffer (offset g.m_from + offset p) n % 2 ^ width))
unfolding read_value segment_ops read bit_buffer_ops
read_value_aligned width g p n inside aligned s =
    elim (dec_le (offset p + n) ((g.m_bitsize + 7) / 8 * 8)) [
      | yes fits ↦
          let sum =
            add_pos_lem g.m_from p inside.from_normal s.normal (omega (arith, inside.small)) in
          ground (
            arith,
            overflows_lem g p n s (omega (arith, inside.small)),
            sum,
            read_lem g.m_buffer (add_pos g.m_from p) n sum.0 s.word
                (omega (arith, sum.1, inside.ends)) (omega (arith, sum.1, inside.small)),
          )
      | no out ↦ ground (arith, overflows_lem g p n s (omega (arith, inside.small)))
    ]

-- Of a segment that starts inside a byte and ends with its buffer, more than 16 bits below 2 ^
-- 32, a typed read of the 8 bits that end with the segment's size in bytes passes the test for
-- overflow and reads a byte behind the buffer's memory.
pub read_value_unaligned :
    (width : ℕ) (g : BitBufferSegment (List ℕ)) (p : BufferPos)
    → IsInside g
    → 0 < g.m_from.bit
    → offset g.m_from + g.m_bitsize ≡ 8 * length g.m_buffer
    → InScope p 8
    → offset p + 8 ≡ (g.m_bitsize + 7) / 8 * 8
    → read_value (segment_ops bit_buffer_ops) width g p 8 ≡ fault
unfolding read_value segment_ops read bit_buffer_ops
read_value_unaligned width g p inside unaligned ends s last =
    let sum = add_pos_lem g.m_from p inside.from_normal s.normal (omega (arith, inside.small)) in
    ground (
      arith,
      overflows_lem g p 8 s (omega (arith, inside.small)),
      read_outside g.m_buffer (add_pos g.m_from p) 8 sum.0 (omega arith)
          (omega (arith, sum.1, inside.small)) (omega (arith, sum.1)) (omega (arith, sum.1)),
    )
