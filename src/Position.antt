-- ===== src/Position.antt =====
-- IBitBuffer::buffer_pos of util/BitStream: a position in a buffer, as a byte and a bit.
-- `m_byte` is a uint32_t, so sums and differences of bytes wrap; `m_bit` is a uint8_t, and what is
-- added to it is an `int`, which is taken to be wide enough for the sum.
pub mod Laws
use libki.Common.{ℕ, ◌+◌, ◌-◌, ◌*◌, ◌/◌, ◌%◌, ◌^◌, ltb, leb, if◌then◌else◌}
use libki.Common.Int.{ℤ, pos, negsuc, ◌+ℤ◌, ◌-ℤ◌}

pub record BufferPos : Type 0 where
  pub byte : ℕ
  pub bit : ℕ

abbrev pub u32 : ℕ → ℕ
u32 n = n % 2 ^ 32

abbrev pub sub32 : ℕ → ℕ → ℕ
sub32 a b = (a % 2 ^ 32 + 2 ^ 32 - b % 2 ^ 32) % 2 ^ 32

-- `set_bit(int bit)` on a position with the byte given first.
unfoldable pub set_bit : ℕ → ℤ → BufferPos
set_bit byte (negsuc k) = let b = k + 1 in record { byte = sub32 byte (b / 8 + 1); bit = 8 - b % 8 }
set_bit byte (pos b) =
    if leb 8 b
    then record { byte = u32 (byte + b / 8); bit = b % 8 }
    else record { byte = byte; bit = b }

-- buffer_pos(uint32_t byte, int bit)
unfoldable pub buffer_pos : ℕ → ℤ → BufferPos
unfolding set_bit
buffer_pos byte bit = set_bit (u32 byte) bit

-- The copy constructor, which normalises a bit of 8 or more.
unfoldable pub copy : BufferPos → BufferPos
unfolding set_bit
copy cp = set_bit cp.byte (pos cp.bit)

unfoldable pub as_bytes : BufferPos → ℕ
as_bytes p = u32 (p.byte + (if ltb 0 p.bit then 1 else 0))

unfoldable pub as_bits : BufferPos → ℕ
as_bits p = u32 (u32 (p.byte * 8) + p.bit)

-- operator+ and operator- with a position, and with an `int`.
unfoldable pub add_pos : BufferPos → BufferPos → BufferPos
unfolding buffer_pos
add_pos p rhs = buffer_pos (p.byte + rhs.byte) (pos (p.bit + rhs.bit))

unfoldable pub sub_pos : BufferPos → BufferPos → BufferPos
unfolding buffer_pos
sub_pos p rhs = buffer_pos (sub32 p.byte rhs.byte) (pos p.bit -ℤ pos rhs.bit)

unfoldable pub add_int : BufferPos → ℤ → BufferPos
unfolding buffer_pos
add_int p rhs = buffer_pos p.byte (pos p.bit +ℤ rhs)

unfoldable pub sub_int : BufferPos → ℤ → BufferPos
unfolding buffer_pos
sub_int p rhs = buffer_pos p.byte (pos p.bit -ℤ rhs)

-- operator+= and operator-= change the position in place; the first pair takes `rhs` by value.
unfoldable pub add_assign_pos : BufferPos → BufferPos → BufferPos
unfolding set_bit copy
add_assign_pos p rhs = let r = copy rhs in set_bit (u32 (p.byte + r.byte)) (pos (p.bit + r.bit))

unfoldable pub sub_assign_pos : BufferPos → BufferPos → BufferPos
unfolding set_bit copy
sub_assign_pos p rhs = let r = copy rhs in set_bit (sub32 p.byte r.byte) (pos p.bit -ℤ pos r.bit)

unfoldable pub add_assign : BufferPos → ℤ → BufferPos
unfolding set_bit
add_assign p bits = set_bit p.byte (pos p.bit +ℤ bits)

unfoldable pub sub_assign : BufferPos → ℤ → BufferPos
unfolding set_bit
sub_assign p bits = set_bit p.byte (pos p.bit -ℤ bits)

unfoldable pub increment : BufferPos → BufferPos
unfolding set_bit
increment p = set_bit p.byte (pos p.bit +ℤ pos 1)

unfoldable pub decrement : BufferPos → BufferPos
unfolding set_bit
decrement p = set_bit p.byte (pos p.bit -ℤ pos 1)

-- The postfix forms return a copy of the old position beside the new one.
unfoldable pub post_increment : BufferPos → record { result : BufferPos; position : BufferPos }
unfolding copy increment
post_increment p = record { result = copy p; position = increment p }

unfoldable pub post_decrement : BufferPos → record { result : BufferPos; position : BufferPos }
unfolding copy decrement
post_decrement p = record { result = copy p; position = decrement p }

-- A conversion of an unsigned number to a 32-bit `int`.
unfoldable pub to_int : ℕ → ℤ
to_int n = let w = u32 n in if ltb w (2 ^ 31) then pos w else negsuc (2 ^ 32 - w - 1)
