-- ===== src/Interface/Typed.antt =====
-- The typed reads and writes of a BitBuffer, on every branch, and how they meet.
use libki.Common.{
  ℕ, ◌+◌, ◌*◌, ◌%◌, ◌^◌, ◌≤◌, ◌<◌, ◌≡◌, ◌⊎◌, refl, arith, List, ltb, if◌then◌else◌, length, false,
}
use libki.Common.Bits.{test_bit_ext, test_bit-mod}
use libki.Common.Int.{pos}
use libki.Common.Result.{ok, throw}
use libki.Position.{BufferPos, add_int}
use libki.Position.Laws.{offset, IsNormal, max_bits, add_int_lem, as_bytes_lem}
use libki.Buffer.{cannot_read, cannot_write}
use libki.Buffer.Spec.{bits_at, bits_at_ext, bits_at-eq-mod}
use libki.Buffer.Reads.{read_lem}
use libki.Buffer.Writes.{Stored, write_lem}
use libki.Interface.{bit_buffer_ops, overflows, read_value, write_value}
use native.Mathlib.Decide.{dec_le}

-- The positions and widths that the laws are about.
pub record InScope (p : BufferPos) (n : ℕ) : Type 0 where
  pub normal : IsNormal p
  pub word : n ≤ 64
  pub small : offset p + n + 8 < max_bits

overflows_lem :
    (buf : List ℕ) (p : BufferPos) (n : ℕ)
    → InScope p n
    → overflows bit_buffer_ops buf p n ≡ ltb (8 * length buf) (offset p + n)
unfolding overflows bit_buffer_ops
overflows_lem buf p n s =
    let moved = add_int_lem p n s.normal (omega arith) in
    ground (arith, moved, as_bytes_lem (add_int p (pos n)) moved.0 (omega (arith, moved.1)))

-- For a position with a bit below 8 and a run of n bits there, at most 64, that ends more than 8
-- bits below 2 ^ 32: the typed read throws if the run ends behind the buffer, and otherwise
-- returns the run of the buffer's bits, lowest first, modulo 2 to the type's width.
pub read_value_lem :
    (width : ℕ) (buf : List ℕ) (p : BufferPos) (n : ℕ)
    → InScope p n
    → read_value bit_buffer_ops width buf p n ≡ (
        if ltb (8 * length buf) (offset p + n)
        then throw cannot_read
        else ok (bits_at buf (offset p) n % 2 ^ width))
unfolding read_value bit_buffer_ops
read_value_lem width buf p n s = elim (dec_le (offset p + n) (8 * length buf)) [
  | yes inside ↦
      rw (overflows_lem buf p n s, read_lem buf p n s.normal s.word inside (omega arith)) refl
  | no outside ↦ ground (arith, overflows_lem buf p n s)
]

-- A write stores the value's bits if the run lies inside the buffer, and throws if it does not.
pub write_value_inside :
    (buf : List ℕ) (value : ℕ) (p : BufferPos) (n : ℕ)
    → InScope p n
    → offset p + n ≤ 8 * length buf
    → Stored buf (offset p) 0 n value (write_value bit_buffer_ops buf value p n)
unfolding write_value bit_buffer_ops
write_value_inside buf value p n s inside =
    rw (overflows_lem buf p n s, fits)
      (write_lem buf value p n s.normal s.word inside (omega arith))
  where
    fits : ltb (8 * length buf) (offset p + n) ≡ false
    fits = ground arith

pub write_value_outside :
    (buf : List ℕ) (value : ℕ) (p : BufferPos) (n : ℕ)
    → InScope p n
    → 8 * length buf < offset p + n
    → write_value bit_buffer_ops buf value p n ≡ throw cannot_write
unfolding write_value
write_value_outside buf value p n s outside = ground (arith, overflows_lem buf p n s)

-- What is stored is what is read.
pub Stored-bits_at :
    {before : List ℕ} {q n value : ℕ} {result : _}
    → (w : Stored before q 0 n value result) → bits_at w.after q n ≡ value % 2 ^ n
Stored-bits_at {q} {n} {value} w =
    bits_at-eq-mod w.after q n value λ i h. ground (arith, w.bits (q + i))

-- A run beside the one stored keeps its value.
pub Stored-bits_at_other :
    {before : List ℕ} {q n value : ℕ} {result : _} (r m : ℕ)
    → (r + m ≤ q) ⊎ (q + n ≤ r)
    → (w : Stored before q 0 n value result) → bits_at w.after r m ≡ bits_at before r m
Stored-bits_at_other {before} r m apart w =
    bits_at_ext w.after before r m λ i h. ground (arith, w.bits (r + i))

pub mod-pow_wider : (width n value : ℕ) → n ≤ width → value % 2 ^ n % 2 ^ width ≡ value % 2 ^ n
mod-pow_wider width n value wide =
    test_bit_ext _ _
      λ i. ground (arith, test_bit-mod i width (value % 2 ^ n), test_bit-mod i n value)

-- Let p and r be positions with a bit below 8, of runs of n and m bits, at most 64 each, that end
-- more than 8 bits below 2 ^ 32, where the first run lies inside the buffer, n is at most the
-- type's width, and the two runs have no bit in common. Then the typed write of n bits at p
-- returns, a typed read of n bits at p after it gives the value modulo 2 ^ n, and a typed read of
-- m bits at r gives what it gave before the write.
pub read_value-write_value :
    (width : ℕ) (buf : List ℕ) (value : ℕ) (p r : BufferPos) (n m : ℕ)
    → InScope p n
    → InScope r m
    → offset p + n ≤ 8 * length buf
    → n ≤ width
    → (offset r + m ≤ offset p) ⊎ (offset p + n ≤ offset r)
    → (after : List ℕ) × (write_value bit_buffer_ops buf value p n ≡ ok after)
      × (read_value bit_buffer_ops width after p n ≡ ok (value % 2 ^ n))
      × (read_value bit_buffer_ops width after r m ≡ read_value bit_buffer_ops width buf r m)
read_value-write_value width buf value p r n m s t inside wide apart =
    let w = write_value_inside buf value p n s inside in
    (
      w.after,
      w.returns,
      ground (
        arith,
        read_value_lem width w.after p n s,
        w.same_length,
        Stored-bits_at w,
        mod-pow_wider width n value wide,
      ),
      ground (
        arith,
        read_value_lem width w.after r m t,
        read_value_lem width buf r m t,
        w.same_length,
        Stored-bits_at_other (offset r) m apart w,
      ),
    )
