-- ===== src/Serializer/RoundTrip/Loaded.antt =====
-- load of a segment in which the steps of an object lie.
use libki.Common.{
  ℕ, ◌+◌, ◌*◌, ◌/◌, ◌%◌, ◌^◌, ◌≤◌, ◌<◌, ◌≡◌, refl, ap, subst, arith, List, [], Bool, true, false,
  if◌then◌else◌, length,
}
use libki.Common.Int.{pos}
use libki.Common.Result.{ok}
use libki.Position.{BufferPos, buffer_pos, add_int, to_int}
use libki.Position.Laws.{copy_normal, offset, IsNormal, max_bits}
use libki.Buffer.Spec.{bits_at}
use libki.Segment.{BitBufferSegment, buffer_segment, size}
use libki.Segment.Laws.{IsInside, bit_buffer_segment_lem, size_lem}
use libki.Stream.{bit_stream, seek, tell, read, capacity}
use libki.Pclass.Object.{Pointer}
use libki.Serializer.{BinarySerializer, Buffers, compressed, flag_is_set, thrown}
use libki.Serializer.Load.{load, load_root}
use libki.Serializer.AnyBuffer.{whole, part, any_buffers, segment_of}
use libki.Serializer.Steps.{Step, end_of, AreWords, Lie}
use libki.Serializer.Steps.Reading.{IsView, Ahead, Got, stream, read-Got, thrown-Got}
use libki.Serializer.Steps.Window.{bits_from, end_of-add, Lie-bits_from, segment-IsView}
use libki.Serializer.Values.Loading.{here, later}
use libki.Serializer.Objects.{IsKnown}
use libki.Serializer.Objects.Saving.{on_stream}
use libki.Serializer.Objects.Loading.{object_steps-Got}
use libki.Serializer.RoundTrip.Saved.{flags_steps, flagged, save_steps}

flags-Got :
    {S : Type 0} (k : Buffers S) (s : S) (bits : ℕ → ℕ → ℕ) (len : ℕ) (view : IsView k s bits len)
    (b : Bool) (flags : ℕ) (p : BufferPos) (rest : List Step)
    → flags < 2 ^ 32
    → Ahead k s bits len p (flags_steps b flags rest)
    → Got k s bits len (offset p) flags rest (
        if b
        then thrown (read k.ops 32 (stream k s bits len p) 32)
        else ok (flags, stream k s bits len p))
flags-Got k s bits len view true flags p rest h ahead = later k s bits len view (omega arith) (
    thrown-Got k s bits len view
      (read-Got k s bits len view 32 flags 32 p rest (omega arith) h ahead))
flags-Got k s bits len view false flags p rest h ahead = here k s bits len view flags p rest ahead

-- A segment of whole bytes inside a buffer.
pub segment_of_lem :
    (buf : List ℕ) (p : BufferPos) (n : ℕ)
    → IsNormal p
    → 0 < n
    → n < 2 ^ 31
    → offset p + n ≤ 8 * length buf
    → offset p + n + 16 < max_bits
    → segment_of (whole buf) p n ≡ ok (part (record { m_buffer = buf; m_from = p; m_bitsize = n }))
unfolding segment_of buffer_segment
segment_of_lem buf p n h some_bits below fits small =
    ground (arith, bit_buffer_segment_lem buf p n h below)

pub segment_size :
    (g : BitBufferSegment (List ℕ))
    → g.m_bitsize + 8 < max_bits
    → any_buffers.ops.size (part g) ≡ (g.m_bitsize + 7) / 8
unfolding any_buffers
segment_size g h = size_lem g h

module _ (uncompress : ℕ → List ℕ → List ℕ) (y : BinarySerializer) (root : Pointer)
    (g : BitBufferSegment (List ℕ)) (inside : IsInside g) (byte : g.m_from.bit ≡ 0) where
  abbrev loader : BinarySerializer
  loader = on_stream y

  abbrev start : BufferPos
  start = buffer_pos 0 (pos 0)

  -- load, where the segment that it makes has the steps of the object.
  pub load-steps :
      (size : ℕ)
      → flag_is_set loader.m_flags compressed ≡ false
      → loader.m_flags < 2 ^ 32
      → IsKnown loader root
      → segment_of (whole g.m_buffer) g.m_from (size * 8) ≡ ok (part g)
      → Ahead any_buffers
          (part g)
          (bits_from g.m_buffer (offset g.m_from))
          g.m_bitsize
          start
          (save_steps loader root)
      → load any_buffers uncompress loader
          (record { m_buffer = whole g.m_buffer; m_position = g.m_from })
          size
        ≡ ok (
          loader,
          root,
          record { m_buffer = whole g.m_buffer; m_position = add_int g.m_from (to_int (size * 8)) },
        )
  unfolding load load_root seek tell bit_stream capacity any_buffers add_int
  load-steps size plain small known seg ahead =
      let view = segment-IsView g inside byte in
      let bits = bits_from g.m_buffer (offset g.m_from) in
      let flags =
        flags-Got any_buffers (part g) bits g.m_bitsize view (flagged loader) loader.m_flags start _
          small ahead in
      let loaded =
        object_steps-Got any_buffers (part g) bits g.m_bitsize view y root
          (8 * any_buffers.ops.size (part g) + 1) flags.place [] known
          (omega (arith, segment_size g (omega (arith, inside.small)))) flags.ahead in
      rw (copy_normal g.m_from inside.from_normal, seg, flags.returns, plain, loaded.returns) refl

pub to_int_lem : (n : ℕ) → n < 2 ^ 31 → to_int n ≡ pos n
unfolding to_int
to_int_lem n h = ground arith

-- What lies in a buffer from a byte on lies in a segment from its start on.
pub start-Ahead :
    (steps : List Step) (g : BitBufferSegment (List ℕ))
    → g.m_from.bit ≡ 0
    → AreWords steps
    → Lie (bits_at g.m_buffer) (offset g.m_from) steps
    → end_of (offset g.m_from) steps ≤ offset g.m_from + g.m_bitsize
    → Ahead any_buffers
        (part g)
        (bits_from g.m_buffer (offset g.m_from))
        g.m_bitsize
        (buffer_pos 0 (pos 0))
        steps
unfolding buffer_pos
start-Ahead steps g byte words lie fits =
    let whole_bytes : offset g.m_from % 8 ≡ 0 = omega (arith, byte) in
    let same : offset g.m_from ≡ offset g.m_from + 0 = omega arith in
    record {
      normal = omega arith;
      words = words;
      lie =
          Lie-bits_from steps g.m_buffer (offset g.m_from) 0 whole_bytes
            (subst (λ q. Lie (bits_at g.m_buffer) q steps) same lie);
      inside = omega (
        arith,
        fits,
        ap (λ q. end_of q steps) same,
        end_of-add steps (offset g.m_from) 0 whole_bytes,
      );
    }
