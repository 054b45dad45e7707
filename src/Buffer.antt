-- ===== src/Buffer.antt =====
-- IBitBuffer and BitBuffer of util/BitStream: memory read and written in runs of bits, the least
-- significant bit of a byte first.
-- A BitBuffer is the list of its bytes, so `m_buffer_size` is the list's length and an access
-- outside the allocation is a `fault`. A value is a uint64_t; a shift of one by 64 or more, which
-- C++ leaves undefined, gives 0 here, and the theorems ask for at most 64 bits.
pub mod Spec
pub mod Rounds
pub mod Reads
pub mod Writes
use libki.Common.{
  ℕ, zero, suc, ◌+◌, ◌-◌, ◌*◌, ◌/◌, ◌%◌, ◌^◌, bit_and, bit_or, List, [], ◌∷◌, ◌++◌, ltb, leb,
  if◌then◌else◌, length, get_elem?, set, take, replicate,
}
use libki.Common.Int.{ℤ, pos}
use libki.Common.Result.{Result, ok, throw, fault, stuck, ◌>>=◌, deref}
use libki.Position.{BufferPos, copy, add_int, add_assign, as_bytes, to_int}

-- The messages of `ki::runtime_error`.
pub data BufferError : Type 0 where
  cannot_read cannot_write : BufferError
  segment_outside segment_too_long segment_not_resizable : BufferError
  maximum_size : BufferError

abbrev pub R : Type 0 → Type 0
R A = Result BufferError A

abbrev pub u8 : ℕ → ℕ
u8 n = n % 2 ^ 8

abbrev pub shl64 : ℕ → ℕ → ℕ
shl64 x k = x * 2 ^ k % 2 ^ 64

-- How many bits one round takes, and the mask of as many.
abbrev pub bit_count : ℕ → BufferPos → ℕ
bit_count left position =
    let available = u8 (8 + 2 ^ 8 - position.bit) in if ltb left available then left else available

abbrev pub low_mask : ℕ → ℕ
low_mask count = 2 ^ count - 1

-- The bits that a round reads from the byte at hand.
unfoldable pub bits_value : ℕ → ℕ → ℕ → ℕ
bits_value buffer_value count bit =
    let bit_mask = u8 (low_mask count * 2 ^ bit) in u8 (bit_and buffer_value bit_mask / 2 ^ bit)

-- BitBuffer::read, its loop at `position` with `unread` of `bits` bits left.
unfoldable pub read_loop : ℕ → List ℕ → BufferPos → ℕ → ℕ → ℕ → R ℕ
read_loop zero m_buffer position bits unread value = stuck
read_loop (suc fuel) m_buffer position bits unread value =
    let round : R ℕ = (do
      buffer_value ← deref (get_elem? m_buffer position.byte)
      let count = bit_count unread position
      let read_bits = u8 (bits + 2 ^ 8 - unread)
      read_loop fuel m_buffer (add_assign position (pos count)) bits (unread - count)
          (bit_or value (shl64 (bits_value buffer_value count position.bit) read_bits))) in
    if ltb 0 unread then round else ok value

unfoldable pub read : List ℕ → BufferPos → ℕ → R ℕ
unfolding read_loop
read m_buffer position bits = read_loop (bits + 1) m_buffer (copy position) bits bits 0

-- The byte that a round of `write` stores over `current`.
unfoldable pub written_byte : ℕ → ℕ → ℕ → ℕ → ℕ → ℕ
written_byte current value written count bit =
    let bit_mask_rel = shl64 (low_mask count) written in
    let value_byte = u8 (bit_and (bit_and value bit_mask_rel / 2 ^ written) 0xff) in
    let bit_mask_abs = shl64 (low_mask count) bit in
    u8 (
      bit_or (bit_and current (bit_and (2 ^ 64 - 1 - bit_mask_abs) 0xff))
        (u8 (value_byte * 2 ^ bit)))

-- BitBuffer::write.
unfoldable pub write_loop : ℕ → List ℕ → ℕ → BufferPos → ℕ → ℕ → R (List ℕ)
write_loop zero m_buffer value position bits unwritten = stuck
write_loop (suc fuel) m_buffer value position bits unwritten =
    let round : R (List ℕ) = (do
      current ← deref (get_elem? m_buffer position.byte)
      let count = bit_count unwritten position
      let written = u8 (bits + 2 ^ 8 - unwritten)
      let stored = written_byte current value written count position.bit
      write_loop fuel (set m_buffer position.byte stored) value (add_assign position (pos count))
          bits (unwritten - count)) in
    if ltb 0 unwritten then round else ok m_buffer

unfoldable pub write : List ℕ → ℕ → BufferPos → ℕ → R (List ℕ)
unfolding write_loop
write m_buffer value position bits = write_loop (bits + 1) m_buffer value (copy position) bits bits

-- BitBuffer(size_t) and BitBuffer(uint8_t *, size_t), size and resize.
unfoldable pub bit_buffer : ℕ → List ℕ
bit_buffer buffer_size = replicate buffer_size 0

unfoldable pub resize : ℕ → List ℕ → List ℕ
resize new_size m_buffer =
    if leb (length m_buffer) new_size
    then m_buffer ++ replicate (new_size - length m_buffer) 0
    else take new_size m_buffer
