-- ===== src/Serializer/RoundTrip.antt =====
-- BinarySerializer, not in the form of a file and without compression: what save writes, load gives
-- back.
pub mod Saved
pub mod Loaded
use libki.Common.{
  ℕ, ◌+◌, ◌-◌, ◌*◌, ◌/◌, ◌%◌, ◌^◌, ◌≤◌, ◌<◌, ◌≡◌, refl, ap, subst, sym, ◌∙◌, arith, List, [], ◌∷◌,
  Bool, true, false, if◌then◌else◌, length, Bool-cases, inl, inr,
}
use libki.Common.Int.{pos}
use libki.Common.Result.{Result, ok, throw, fault, stuck, ◌>>=◌, bind_assoc}
use libki.Position.{BufferPos, buffer_pos, add_int, to_int}
use libki.Position.Laws.{offset, IsNormal, max_bits, add_int_lem}
use libki.Buffer.Spec.{bits_at}
use libki.Interface.{bit_buffer_ops}
use libki.Segment.{BitBufferSegment, buffer_segment, size}
use libki.Segment.Laws.{IsInside, bit_buffer_segment_lem, size_lem}
use libki.Stream.{BitStream, bit_stream, seek, tell, read, write, capacity}
use libki.Stream.RoundTrip.{Stream, IsReady, at}
use libki.Pclass.EnumType.{RuntimeError}
use libki.Pclass.Object.{Pointer, null, object}
use libki.Serializer.{
  BinarySerializer, Buffers, write_serializer_flags, compressed, flag_is_set, thrown,
}
use libki.Serializer.Save.{save, save_object}
use libki.Serializer.Load.{load, load_root, load_object}
use libki.Serializer.AnyBuffer.{AnyBuffer, whole, part, any_buffers, segment_of}
use libki.Serializer.Steps.{Step, put, run, end_of, aligned, AreWords, Lie, end_of-le}
use libki.Serializer.Steps.Writing.{HasRun, run_lem}
use libki.Serializer.Steps.Reading.{IsView, Ahead, Got, stream, read-Got, thrown-Got}
use libki.Serializer.Steps.Window.{bits_from, end_of-add, Lie-bits_from, segment-IsView}
use libki.Serializer.Values.Saving.{Saves, Saves-bind, Saves-put}
use libki.Serializer.Values.Loading.{here, later}
use libki.Serializer.Objects.{object_steps, properties_steps, IsKnown, object_steps-AreWords}
use libki.Serializer.Objects.Saving.{on_stream, Saves-object_steps}
use libki.Serializer.Objects.Loading.{object_steps-Got}
use Saved.{flagged, flags_steps-AreWords, save_steps, save-run, save-HasRun, end_of-flags_steps}
use Loaded.{segment_of_lem, load-steps, start-Ahead, to_int_lem}

-- What load is given: the stream that was saved to, back at the old position.
abbrev pub rewound : Stream → Stream → BitStream AnyBuffer
rewound saved st = record { m_buffer = whole saved.m_buffer; m_position = st.m_position }

-- The bytes that were written.
abbrev pub written : Stream → Stream → ℕ
written saved st = (at saved - at st + 7) / 8

module _ (deflate : List ℕ → List ℕ) (uncompress : ℕ → List ℕ → List ℕ) where
  -- save returns, and load of the bytes that were written gives the object and ends behind them.
  abbrev pub GivesBack : BinarySerializer → Pointer → Stream → Type 0
  GivesBack z root st =
      (saved : Stream) × (loaded : BitStream AnyBuffer) × (save bit_buffer_ops deflate z root st
        ≡ ok (record z { m_root_object = root }, saved))
      × (load any_buffers uncompress z (rewound saved st) (written saved st) ≡ ok (z, root, loaded))
      × (loaded.m_buffer ≡ whole saved.m_buffer)
      × (offset loaded.m_position ≡ aligned (at saved))

  on_stream-GivesBack :
      (y : BinarySerializer) (root : Pointer) (st : Stream)
      → flag_is_set y.m_flags compressed ≡ false
      → y.m_flags < 2 ^ 32
      → IsKnown (on_stream y) root
      → IsReady st
      → st.m_position.bit ≡ 0
      → at st ≤ 8 * length st.m_buffer
      → end_of (at st) (save_steps (on_stream y) root) + 32 < 2 ^ 31
      → GivesBack (on_stream y) root st
  on_stream-GivesBack y root st plain flags known r byte inside small =
      let steps = save_steps (on_stream y) root in
      let run = save-HasRun deflate y root st known r inside (omega (arith, small)) in
      let words : AreWords steps =
        flags_steps-AreWords (flagged y) y.m_flags _
          (object_steps-AreWords (on_stream y) root [] known tt) in
      let n = written run.after st in
      let some_bits : at st + 32 ≤ at run.after =
        omega
          (arith, run.moved, end_of-flags_steps (flagged y) y.m_flags (on_stream y) root (at st)) in
      let seg =
        segment_of_lem run.after.m_buffer st.m_position (n * 8) (omega arith)
          (omega (arith, some_bits)) (omega (arith, run.moved, small))
          (omega (arith, run.room, byte)) (omega (arith, run.moved, small)) in
      let g : BitBufferSegment (List ℕ) = record {
        m_buffer = run.after.m_buffer;
        m_from = st.m_position;
        m_bitsize = n * 8;
      } in
      let in_buffer : IsInside g = record {
        from_normal = omega (arith, byte);
        ends = omega (arith, run.room, byte);
        small = omega (arith, run.moved, small);
      } in
      let moved = add_int_lem st.m_position (n * 8) r.normal (omega (arith, run.moved, small)) in
      (
        run.after,
        record {
          m_buffer = whole run.after.m_buffer;
          m_position = add_int st.m_position (to_int (n * 8));
        },
        save-run deflate y root st run.after plain run.returns,
        load-steps uncompress y root g in_buffer byte n plain flags known seg
            (start-Ahead steps g byte words run.lie (omega (arith, run.moved))),
        refl,
        rw (to_int_lem (n * 8) (omega (arith, run.moved, small))) (omega (arith, moved.1, byte)),
      )

  -- Let a serializer not be in the form of a file and not compress, with flags below 2 ^ 32, and
  -- let the root be null or an object of a type that its type system finds, such that the
  -- properties are those of a new object in their order: one that is ignored has what the new
  -- object has, and the others have values of their types (numbers of at most 64 bits that fit,
  -- texts of fewer than 2 ^ 16 characters that fit, values of the enum) or objects of the class
  -- or one derived from it that are such objects again, fewer than 2 ^ 32 of them, and as many as
  -- the new object has if the property is not dynamic. Let a stream over a BitBuffer of at least
  -- two bytes stand on a byte not behind the buffer's end, and let all that is written end more
  -- than 32 bits below 2 ^ 31. Then save returns, and load of as many bytes as save has written,
  -- from the old position of the same buffer, gives an object equal to the root and leaves the
  -- buffer and the flags as they were and the stream at the first byte behind what was written.
  pub load-save :
      (z : BinarySerializer) (root : Pointer) (st : Stream)
      → z.m_is_file ≡ false
      → flag_is_set z.m_flags compressed ≡ false
      → z.m_flags < 2 ^ 32
      → IsKnown z root
      → IsReady st
      → st.m_position.bit ≡ 0
      → at st ≤ 8 * length st.m_buffer
      → end_of (at st) (save_steps z root) + 32 < 2 ^ 31
      → GivesBack z root st
  unfolding object_steps
  load-save z root st no_file plain flags known r byte inside small =
      let same : on_stream z ≡ z = ap (λ b. record z { m_is_file = b }) (sym no_file) in
      subst (λ y. GivesBack y root st) same
        (on_stream-GivesBack z root st plain flags known r byte inside small)
