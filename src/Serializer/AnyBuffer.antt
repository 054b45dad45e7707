-- ===== src/Serializer/AnyBuffer.antt =====
-- What an IBitBuffer pointer leads to when a stream over a BitBuffer is loaded from: the BitBuffer
-- itself, or a segment of one. A segment of either is a segment of the BitBuffer.
use libki.Common.{ℕ, List, ◌≡◌, refl}
use libki.Common.Result.{ok, ◌>>=◌}
use libki.Position.{BufferPos}
use libki.Buffer.{R}
use libki.Interface.{bit_buffer_ops, read_value}
use libki.Segment
use libki.Segment.{BitBufferSegment, segment_ops, buffer_segment}
use libki.Serializer.{Buffers}

pub data AnyBuffer : Type 0 where
  whole : List ℕ → AnyBuffer
  part : BitBufferSegment (List ℕ) → AnyBuffer

abbrev size : AnyBuffer → ℕ
size (whole buf) = bit_buffer_ops.size buf
size (part g) = (segment_ops bit_buffer_ops).size g

abbrev resize : ℕ → AnyBuffer → R AnyBuffer
resize n (whole buf) = bit_buffer_ops.resize n buf >>= λ s. ok (whole s)
resize n (part g) = (segment_ops bit_buffer_ops).resize n g >>= λ s. ok (part s)

abbrev read : AnyBuffer → BufferPos → ℕ → R ℕ
read (whole buf) position bits = bit_buffer_ops.read buf position bits
read (part g) position bits = (segment_ops bit_buffer_ops).read g position bits

abbrev write : AnyBuffer → ℕ → BufferPos → ℕ → R AnyBuffer
write (whole buf) value position bits =
    bit_buffer_ops.write buf value position bits >>= λ s. ok (whole s)
write (part g) value position bits =
    (segment_ops bit_buffer_ops).write g value position bits >>= λ s. ok (part s)

unfoldable pub segment_of : AnyBuffer → BufferPos → ℕ → R AnyBuffer
unfolding buffer_segment Segment.segment bit_buffer_ops
segment_of (whole buf) from bitsize =
    buffer_segment bit_buffer_ops buf from bitsize >>= λ g. ok (part g)
segment_of (part g) from bitsize =
    Segment.segment bit_buffer_ops g from bitsize >>= λ h. ok (part h)

unfoldable pub any_buffers : Buffers AnyBuffer
unfolding segment_of bit_buffer_ops segment_ops
any_buffers = record {
  ops = record { size = size; resize = resize; read = read; write = write };
  segment = segment_of;
  bit_buffer = whole;
}

-- A typed read from a segment is that of the segment.
pub read_value-part :
    (width : ℕ) (g : BitBufferSegment (List ℕ)) (p : BufferPos) (n : ℕ)
    → read_value any_buffers.ops width (part g) p n
      ≡ read_value (segment_ops bit_buffer_ops) width g p n
unfolding read_value any_buffers segment_ops
read_value-part width g p n = refl
