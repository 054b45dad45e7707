-- ===== src/Segment.antt =====
-- BitBufferSegment of util/BitStream: a window on another buffer, which it reads and writes through
-- the other's overrides. The state of a segment holds that of the buffer that it points to.
pub mod Laws
use libki.Common.{ℕ, ◌+◌, ◌/◌, ◌%◌, leb, ltb, if◌then◌else◌}
use libki.Common.Int.{pos}
use libki.Common.Result.{ok, throw, ◌>>=◌}
use libki.Position.{BufferPos, buffer_pos, add_pos, add_int, as_bytes, to_int, u32}
use libki.Buffer.{R, segment_outside, segment_too_long, segment_not_resizable}
use libki.Interface.{IBitBuffer}

pub record BitBufferSegment (S : Type 0) : Type 0 where
  pub m_buffer : S
  pub m_from : BufferPos
  pub m_bitsize : ℕ

module _ {S : Type 0} (b : IBitBuffer S) where
  -- The constructor.
  unfoldable pub bit_buffer_segment : S → BufferPos → ℕ → R (BitBufferSegment S)
  bit_buffer_segment s from bitsize =
      if leb (b.size s) from.byte
      then throw segment_outside
      else if ltb (b.size s) (as_bytes (add_int from (to_int bitsize)))
      then throw segment_too_long
      else ok (record { m_buffer = s; m_from = from; m_bitsize = bitsize })

  -- IBitBuffer::segment and its override, which makes a segment of the underlying buffer.
  unfoldable pub buffer_segment : S → BufferPos → ℕ → R (BitBufferSegment S)
  unfolding bit_buffer_segment
  buffer_segment s from bitsize = bit_buffer_segment s from bitsize

  unfoldable pub segment : BitBufferSegment S → BufferPos → ℕ → R (BitBufferSegment S)
  unfolding bit_buffer_segment
  segment g from bitsize = bit_buffer_segment g.m_buffer (add_pos g.m_from from) bitsize

  unfoldable pub size : BitBufferSegment S → ℕ
  size g = as_bytes (buffer_pos (u32 (g.m_bitsize / 8)) (pos (g.m_bitsize % 8)))

  unfoldable pub resize : ℕ → BitBufferSegment S → R (BitBufferSegment S)
  resize new_size g = throw segment_not_resizable

  unfoldable pub read : BitBufferSegment S → BufferPos → ℕ → R ℕ
  read g position bits = b.read g.m_buffer (add_pos g.m_from position) bits

  unfoldable pub write : BitBufferSegment S → ℕ → BufferPos → ℕ → R (BitBufferSegment S)
  write g value position bits = b.write g.m_buffer value (add_pos g.m_from position) bits >>= λ s.
      ok (record g { m_buffer = s })

  unfoldable pub segment_ops : IBitBuffer (BitBufferSegment S)
  unfolding size resize read write
  segment_ops = record { size = size; resize = resize; read = read; write = write }
