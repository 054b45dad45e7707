-- ===== src/Stream.antt =====
-- BitStream of util/BitStream: a position over an IBitBuffer, which grows when it is written past
-- its end.
pub mod Log
pub mod Expand
pub mod RoundTrip
use libki.Common.{
  ℕ, zero, suc, ◌+◌, ◌-◌, ◌*◌, ◌/◌, ◌^◌, List, Bool, false, ltb, leb, ◌==◌, if◌then◌else◌,
}
use libki.Common.Int.{pos}
use libki.Common.Result.{ok, throw, fault, ◌>>=◌}
use libki.Position.{BufferPos, buffer_pos, copy, add_int, add_assign, as_bytes, to_int}
use libki.Buffer.{R, maximum_size}
use libki.Interface
use libki.Interface.{IBitBuffer}
use Log.{log2}

pub record BitStream (S : Type 0) : Type 0 where
  pub m_buffer : S
  pub m_position : BufferPos

module _ {S : Type 0} (b : IBitBuffer S) where
  -- The size that the buffer is to get: an `int`, which the buffer's size may be compared with.
  unfoldable pub new_size : S → ℕ → ℕ
  new_size s minimum_bits =
      let size = 2 * 2 ^ minimum_bits + 2 in if ltb size (b.size s) then 2 ^ 64 - 1 else size

  -- expand_buffer. `std::log2(0)` is an infinity, which has no uint64_t, and `2 << minimum_bits` is
  -- a shift of an `int`: a result of 2 ^ 31 or more does not fit.
  unfoldable pub expand_buffer : S → BufferPos → R S
  unfolding new_size
  expand_buffer s position =
      if leb (b.size s) (as_bytes position)
      then if position.byte == 0
        then fault
        else (let minimum_bits = log2 position.byte + 1 in
            let size = new_size s minimum_bits in
            if leb 30 minimum_bits
            then fault
            else if size == b.size s
            then throw maximum_size
            else b.resize size s)
      else ok s

  unfoldable pub bit_stream : S → BitStream S
  bit_stream s = record { m_buffer = s; m_position = buffer_pos 0 (pos 0) }

  -- A copy of the position is returned.
  unfoldable pub tell : BitStream S → BufferPos
  tell st = copy st.m_position

  -- `position` is the parameter, as the caller has made it: of another position by the copy
  -- constructor, of a new one without. It is assigned bit by bit.
  unfoldable pub seek : BitStream S → BufferPos → Bool → R (BitStream S)
  unfolding expand_buffer
  seek st position expand = do
    s ← if expand then expand_buffer st.m_buffer position else ok st.m_buffer
    ok (record { m_buffer = s; m_position = position })

  unfoldable pub realign : BitStream S → R (BitStream S)
  unfolding seek tell
  realign st = seek st (buffer_pos (as_bytes (tell st)) (pos 0)) false

  unfoldable pub capacity : BitStream S → ℕ
  capacity st = b.size st.m_buffer

  unfoldable pub read : ℕ → BitStream S → ℕ → R (ℕ × BitStream S)
  read width st bits = do
    value ← Interface.read_value b width st.m_buffer st.m_position bits
    ok (value, record st { m_position = add_assign st.m_position (pos bits) })

  unfoldable pub write : BitStream S → ℕ → ℕ → R (BitStream S)
  unfolding expand_buffer
  write st value bits = do
    s ← expand_buffer st.m_buffer (add_int st.m_position (pos bits))
    s' ← Interface.write_value b s value st.m_position bits
    ok (record { m_buffer = s'; m_position = add_assign st.m_position (pos bits) })

  unfoldable pub read_copy : BitStream S → ℕ → R (List ℕ × BitStream S)
  read_copy st bitsize = do
    dst ← Interface.read_copy b st.m_buffer st.m_position bitsize
    ok (dst, record st { m_position = add_assign st.m_position (to_int bitsize) })

  unfoldable pub write_copy : BitStream S → List ℕ → ℕ → R (BitStream S)
  unfolding expand_buffer
  write_copy st src bitsize = do
    s ← expand_buffer st.m_buffer (add_int st.m_position (to_int bitsize))
    s' ← Interface.write_copy b s src st.m_position bitsize
    ok (record { m_buffer = s'; m_position = add_assign st.m_position (to_int bitsize) })
