-- ===== src/Stream/RoundTrip.antt =====
-- BitStream over a BitBuffer: what is written in sequence is read back in sequence.
use libki.Common.{
  ℕ, ◌+◌, ◌-◌, ◌*◌, ◌/◌, ◌%◌, ◌^◌, ◌≤◌, ◌<◌, ◌≡◌, refl, arith, List, [], ◌∷◌, ltb, leb, ◌&&◌,
  if◌then◌else◌, length, map, get_or,
}
use libki.Common.Bits.{test_bit}
use libki.Common.Int.{pos}
use libki.Common.Result.{ok, ◌>>=◌}
use libki.Position.{add_int, add_assign}
use libki.Position.Laws.{offset, IsNormal, max_bits, add_int_lem, add_assign_lem, as_bytes_lem}
use libki.Buffer.{R}
use libki.Buffer.Spec.{bit_at, bits_at, bits_at-eq-mod}
use libki.Interface.{bit_buffer_ops}
use libki.Interface.Typed.{InScope, read_value_lem, write_value_inside, mod-pow_wider}
use libki.Stream.{BitStream, read, write}
use libki.Stream.Expand.{expand_buffer-Expanded}

abbrev pub Stream : Type 0
Stream = BitStream (List ℕ)

-- A stream at a proper position of a buffer that can grow.
pub record IsReady (st : Stream) : Type 0 where
  pub normal : IsNormal st.m_position
  pub two_bytes : 2 ≤ length st.m_buffer

abbrev pub at : Stream → ℕ
at st = offset st.m_position

-- `result` is a return of a stream that has moved over the n bits of the value, which it has stored,
-- and that has room for all bits before its position.
pub record Wrote (st : Stream) (value n : ℕ) (result : R Stream) : Type 0 where
  pub after : Stream
  pub returns : result ≡ ok after
  pub ready : IsReady after
  pub moved : at after ≡ at st + n
  pub room : at st + n ≤ 8 * length after.m_buffer
  pub grows : length st.m_buffer ≤ length after.m_buffer
  pub bits :
      (i : ℕ)
      → bit_at after.m_buffer i ≡ (
          if leb (at st) i && ltb i (at st + n)
          then test_bit (i - at st) value
          else bit_at st.m_buffer i)

bit_at-same :
    (a b : List ℕ) → ((j : ℕ) → get_or a j 0 ≡ get_or b j 0) → (i : ℕ) → bit_at a i ≡ bit_at b i
unfolding bit_at
bit_at-same a b h i = rw (h (i / 8))

pub write-Wrote :
    (st : Stream) (value n : ℕ)
    → IsReady st
    → n ≤ 64
    → at st + n + 8 < max_bits
    → Wrote st value n (write bit_buffer_ops st value n)
unfolding write
write-Wrote st value n r word small =
    let p = st.m_position in
    let end = add_int_lem p n r.normal (omega arith) in
    let e =
      expand_buffer-Expanded st.m_buffer (add_int p (pos n)) end.0 (omega (arith, end.1))
        r.two_bytes in
    let scope : InScope p n = record { normal = r.normal; word = word; small = small } in
    let bytes = as_bytes_lem (add_int p (pos n)) end.0 (omega (arith, end.1)) in
    let room : offset p + n ≤ 8 * length e.after = omega (arith, e.room, bytes, end.1) in
    let w = write_value_inside e.after value p n scope room in
    let moved = add_assign_lem p n r.normal (omega arith) in
    record {
      after = record { m_buffer = w.after; m_position = add_assign p (pos n) };
      returns = rw (e.returns, w.returns) refl;
      ready = record {
        normal = moved.0;
        two_bytes = omega (arith, r.two_bytes, w.same_length, e.grows);
      };
      moved = moved.1;
      room = omega (arith, w.same_length, room);
      grows = omega (arith, w.same_length, e.grows);
      bits = λ i. ground (arith, w.bits i, bit_at-same e.after st.m_buffer e.same i);
    }

-- A value with the number of bits that it is written in.
pub record Item : Type 0 where
  pub value : ℕ
  pub width : ℕ

unfoldable pub total : List Item → ℕ
total [] = 0
total (x ∷ xs) = x.width + total xs

abbrev pub IsWords : List Item → Type 0
IsWords [] = Unit {0}
IsWords (x ∷ xs) = (x.width ≤ 64) × IsWords xs

-- What comes back of a value.
abbrev pub kept : Item → ℕ
kept x = x.value % 2 ^ x.width

pub write_all : Stream → List Item → R Stream
write_all st [] = ok st
write_all st (x ∷ xs) = write bit_buffer_ops st x.value x.width >>= λ st'. write_all st' xs

-- Reads of as many bits as each item has, into uint64_t.
pub read_all : Stream → List Item → R (List ℕ × Stream)
read_all st [] = ok ([], st)
read_all st (x ∷ xs) = do
  (v, st') ← read bit_buffer_ops 64 st x.width
  (vs, end) ← read_all st' xs
  ok (v ∷ vs, end)

-- The items lie in the buffer, one after the other from bit `q` on.
abbrev Holds : List ℕ → ℕ → List Item → Type 0
Holds buf q [] = Unit {0}
Holds buf q (x ∷ xs) = (bits_at buf q x.width ≡ kept x) × Holds buf (q + x.width) xs

record Filled (st : Stream) (xs : List Item) (result : R Stream) : Type 0 where
  after : Stream
  returns : result ≡ ok after
  moved : at after ≡ at st + total xs
  room : at st + total xs ≤ 8 * length after.m_buffer
  before : (i : ℕ) → i < at st → bit_at after.m_buffer i ≡ bit_at st.m_buffer i
  holds : Holds after.m_buffer (at st) xs

write_all-Filled :
    (xs : List Item) (st : Stream)
    → IsReady st
    → IsWords xs
    → at st ≤ 8 * length st.m_buffer
    → at st + total xs + 8 < max_bits
    → Filled st xs (write_all st xs)
unfolding write_all total
write_all-Filled [] st r h inside small = record {
  after = st;
  returns = refl;
  moved = omega arith;
  room = omega arith;
  before = λ i lt. refl;
  holds = tt;
}
write_all-Filled (x ∷ xs) st r h inside small =
    let w = write-Wrote st x.value x.width r h.0 (omega arith) in
    let rest =
      write_all-Filled xs w.after w.ready h.1 (omega (arith, w.moved, w.room))
        (omega (arith, w.moved)) in
    record {
      after = rest.after;
      returns = rw (w.returns) rest.returns;
      moved = omega (arith, w.moved, rest.moved);
      room = omega (arith, w.moved, rest.room);
      before = λ i lt. ground (arith, rest.before i, w.moved, w.bits i);
      holds = (
        bits_at-eq-mod rest.after.m_buffer (at st) x.width x.value
            (λ i lt. ground (arith, rest.before (at st + i), w.moved, w.bits (at st + i))),
        rw (w.moved) at rest.holds,
      );
    }

-- Reading from a buffer that holds the items.
read_all_lem :
    (xs : List Item) (st : Stream)
    → IsNormal st.m_position
    → IsWords xs
    → at st + total xs ≤ 8 * length st.m_buffer
    → at st + total xs + 8 < max_bits
    → Holds st.m_buffer (at st) xs
    → (end : Stream) × (read_all st xs ≡ ok (map kept xs, end))
      × (at end ≡ at st + total xs)
      × (end.m_buffer ≡ st.m_buffer)
unfolding read_all total read
read_all_lem [] st n h inside small holds = (st, refl, omega arith, refl)
read_all_lem (x ∷ xs) st n h inside small holds =
    let scope : InScope st.m_position x.width = record {
      normal = n;
      word = h.0;
      small = omega arith;
    } in
    let moved = add_assign_lem st.m_position x.width n (omega arith) in
    let next : Stream = record st { m_position = add_assign st.m_position (pos x.width) } in
    let (end, returns, place, same) =
      read_all_lem xs next moved.0 h.1 (omega (arith, moved.1)) (omega (arith, moved.1))
        (rw (moved.1) (holds.1)) in
    (
      end,
      ground (
        arith,
        read_value_lem 64 st.m_buffer st.m_position x.width scope,
        holds.0,
        returns,
        mod-pow_wider 64 x.width x.value (h.0),
      ),
      omega (arith, moved.1, place),
      same,
    )

-- Let a stream over a BitBuffer of at least two bytes stand at a position whose bit is below 8
-- and which is not behind the buffer's end, and let values of at most 64 bits each be given such
-- that the position and all widths together stay more than 8 bits below 2 ^ 32. Writing the
-- values one after the other returns, and reading the same widths from the old position returns
-- each value modulo 2 ^ width and ends at the position, and with the buffer, at which the writes
-- ended.
pub read_all-write_all :
    (xs : List Item) (st : Stream)
    → IsReady st
    → IsWords xs
    → at st ≤ 8 * length st.m_buffer
    → at st + total xs + 8 < max_bits
    → (written : Stream) × (end : Stream) × (write_all st xs ≡ ok written)
      × (read_all (record written { m_position = st.m_position }) xs ≡ ok (map kept xs, end))
      × (at end ≡ at written)
      × (end.m_buffer ≡ written.m_buffer)
read_all-write_all xs st r h inside small =
    let w = write_all-Filled xs st r h inside small in
    let back : Stream = record { m_buffer = w.after.m_buffer; m_position = st.m_position } in
    let (end, returns, place, same) = read_all_lem xs back r.normal h w.room small w.holds in
    (w.after, end, w.returns, returns, omega (arith, place, w.moved), same)
