-- ===== src/Serializer/Termination.antt =====
-- BinarySerializer: load from a stream that is not a file ends, whatever the bytes are.
use libki.Common.{
  ℕ, ◌+◌, ◌*◌, ◌%◌, ◌^◌, ◌<◌, ◌≡◌, ◌≢◌, ◌⊎◌, inl, inr, refl, ap, subst, sym, ◌∙◌, arith, List, ltb,
  false, length, if◌then◌else◌,
}
use libki.Common.Int.{pos}
use libki.Common.Result.{Result, ok, throw, fault, stuck, ◌>>=◌}
use libki.Buffer.{BufferError, cannot_read, segment_outside, segment_too_long}
use libki.Buffer.Spec.{bits_at}
use libki.Position.{BufferPos, buffer_pos, add_int, to_int}
use libki.Position.Laws.{copy_normal, offset, IsNormal, max_bits}
use libki.Segment.{BitBufferSegment, buffer_segment}
use libki.Segment.Laws.{IsInside, read_value_aligned, bit_buffer_segment_lem}
use libki.Stream.{BitStream, bit_stream, seek, tell, capacity}
use libki.Pclass.EnumType.{RuntimeError}
use libki.Serializer.{BinarySerializer, Buffers, write_serializer_flags, compressed, flag_is_set}
use libki.Serializer.Load.{load, load_root, load_object}
use libki.Serializer.AnyBuffer.{AnyBuffer, whole, part, any_buffers, segment_of, read_value-part}
use libki.Serializer.Objects.Saving.{on_stream}
use libki.Serializer.Fuel.{IsBounded, Stands, Ends, IsDone}
use libki.Serializer.Fuel.Objects.{TypesHaveWords, Ends-object}
use libki.Serializer.RoundTrip.Loaded.{segment_size}
use native.Mathlib.Decide.{dec_le}

abbrev read_at : BitBufferSegment (List ℕ) → ℕ → BufferPos → ℕ → ℕ
read_at g width p n = bits_at g.m_buffer (offset g.m_from + offset p) n % 2 ^ width

segment-IsBounded :
    (g : BitBufferSegment (List ℕ))
    → IsInside g
    → g.m_from.bit ≡ 0
    → g.m_bitsize % 8 ≡ 0
    → g.m_bitsize + 80 < max_bits
    → IsBounded any_buffers (part g) g.m_bitsize
segment-IsBounded g inside byte whole_bytes small = record {
  value = read_at g;
  reads = λ width p n scope.
      read_value-part width g p n
      ∙ read_value_aligned width g p n inside byte scope
      ∙ ap (λ m. if ltb m (offset p + n) then throw cannot_read else ok (read_at g width p n))
          (omega (arith, whole_bytes));
  whole_bytes = whole_bytes;
  small = small;
}

-- A segment is made, or nothing is.
segment_of-cases :
    (buf : List ℕ) (p : BufferPos) (n : ℕ)
    → IsNormal p
    → n < 2 ^ 31
    → offset p + n + 16 < max_bits
    → ((e : BufferError) × (segment_of (whole buf) p n ≡ throw e))
      ⊎ (let g : BitBufferSegment (List ℕ) = record { m_buffer = buf; m_from = p; m_bitsize = n } in
          (segment_of (whole buf) p n ≡ ok (part g)) × IsInside g)
unfolding segment_of buffer_segment
segment_of-cases buf p n h below small = elim (dec_le (offset p + 1) (8 * length buf)) [
  | no outside ↦ inl (segment_outside, ground (arith, bit_buffer_segment_lem buf p n h below))
  | yes start ↦ elim (dec_le (offset p + n) (8 * length buf)) [
    | no long ↦ inl (segment_too_long, ground (arith, bit_buffer_segment_lem buf p n h below))
    | yes fits ↦ inr (
      ground (arith, bit_buffer_segment_lem buf p n h below),
      record { from_normal = h; ends = fits; small = small },
    )
  ]
]

-- What ends is not stuck, whatever is made of it.
Ends-IsDone :
    {S A B : Type 0} (k : Buffers S) (s : S) (len q : ℕ) (r : Result RuntimeError (A × BitStream S))
    (f : A → B)
    → Ends k s len q r
    → IsDone (r >>= λ x. ok (f x.0))
Ends-IsDone k s len q (ok (a, st)) f h = tt
Ends-IsDone k s len q (throw e) f h = tt
Ends-IsDone k s len q fault f h = tt
Ends-IsDone k s len q stuck f h = absurd h

IsDone-ne-stuck : {A : Type 0} (r : Result RuntimeError A) → IsDone r → r ≢ stuck
IsDone-ne-stuck r h e = subst (λ r. IsDone r) e h

module _ (uncompress : ℕ → List ℕ → List ℕ) (y : BinarySerializer) (buf : List ℕ) (p : BufferPos)
    (bytes : ℕ) where
  abbrev z : BinarySerializer
  z = on_stream y

  abbrev before : BitStream AnyBuffer
  before = record { m_buffer = whole buf; m_position = p }

  abbrev g : BitBufferSegment (List ℕ)
  g = record { m_buffer = buf; m_from = p; m_bitsize = bytes * 8 }

  abbrev moved : BitStream AnyBuffer
  moved = record { m_buffer = whole buf; m_position = add_int p (to_int (bytes * 8)) }

  at_start :
      Stands any_buffers
        (part g)
        (bytes * 8)
        0
        (record { m_buffer = part g; m_position = buffer_pos 0 (pos 0) })
  unfolding buffer_pos
  at_start = record {
    same = refl;
    normal = omega arith;
    onward = omega arith;
    inside = omega arith;
  }

  load-IsDone :
      flag_is_set z.m_flags write_serializer_flags ≡ false
      → flag_is_set z.m_flags compressed ≡ false
      → TypesHaveWords z.m_type_system.m_types
      → p.bit ≡ 0
      → bytes * 8 < 2 ^ 31
      → offset p + bytes * 8 + 80 < max_bits
      → IsDone (load any_buffers uncompress z before bytes)
  unfolding load load_root seek tell bit_stream capacity any_buffers add_int
  load-IsDone no_flags plain types byte below small =
      elim (segment_of-cases buf p (bytes * 8) (omega (arith, byte)) below (omega (arith, small))) [
        | inl (e, thrown_it) ↦ rw (copy_normal p (omega (arith, byte)), thrown_it) tt
        | inr (made, inside) ↦
            rw (copy_normal p (omega (arith, byte)), made, no_flags, plain)
              (Ends-IsDone any_buffers (part g) (bytes * 8) 0
                (load_object any_buffers (8 * any_buffers.ops.size (part g) + 1) z
                  (record { m_buffer = part g; m_position = buffer_pos 0 (pos 0) }))
                (λ x. (z, x, moved))
                (Ends-object any_buffers (part g) (bytes * 8)
                  (segment-IsBounded g inside byte (omega arith) (omega (arith, small))) y _ 0 _
                  types (omega (arith, segment_size g (omega (arith, small)))) at_start))
      ]

-- Let a serializer not be in the form of a file, have neither of the flags WRITE_SERIALIZER_FLAGS
-- and COMPRESSED, and know only classes whose values are numbers or characters of at most 64
-- bits. For every BitBuffer, a position on a byte, and a size below 2 ^ 31 bits that ends more
-- than 80 bits below 2 ^ 32: load does not run out of fuel, whatever the bytes are, so that the
-- fuel of eight times the segment's bytes and one is enough for objects that are nested as deep
-- as the bytes say.
pub load-ne-stuck :
    (uncompress : ℕ → List ℕ → List ℕ) (z : BinarySerializer) (buf : List ℕ) (p : BufferPos)
    (bytes : ℕ)
    → z.m_is_file ≡ false
    → flag_is_set z.m_flags write_serializer_flags ≡ false
    → flag_is_set z.m_flags compressed ≡ false
    → TypesHaveWords z.m_type_system.m_types
    → p.bit ≡ 0
    → bytes * 8 < 2 ^ 31
    → offset p + bytes * 8 + 80 < max_bits
    → load any_buffers uncompress z (record { m_buffer = whole buf; m_position = p }) bytes ≢ stuck
load-ne-stuck uncompress z buf p bytes no_file no_flags plain types byte below small =
    let same : on_stream z ≡ z = ap (λ b. record z { m_is_file = b }) (sym no_file) in
    IsDone-ne-stuck _ (
      subst (λ y. IsDone (load any_buffers uncompress y (before uncompress z buf p bytes) bytes))
        same (load-IsDone uncompress z buf p bytes no_flags plain types byte below small))
