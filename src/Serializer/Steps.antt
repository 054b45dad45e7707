-- ===== src/Serializer/Steps.antt =====
-- What a serializer does to a stream, apart from the object: alignments and values, one after the
-- other, and where their bits lie.
pub mod Writing
pub mod Reading
pub mod Window
use libki.Common.{
  ℕ, ◌+◌, ◌*◌, ◌/◌, ◌%◌, ◌^◌, ◌≤◌, ◌<◌, ◌≡◌, refl, arith, List, [], ◌∷◌, Bool, true, false,
}
use libki.Common.Result.{Result, ok, ◌>>=◌}
use libki.Common.Int.{pos}
use libki.Position.{BufferPos, buffer_pos, as_bytes}
use libki.Position.Laws.{offset, IsNormal, max_bits, as_bytes_lem, copy_normal}
use libki.Interface.{IBitBuffer, bit_buffer_ops}
use libki.Stream.{BitStream, realign, tell, write}
use libki.Stream.RoundTrip.{Stream}
use libki.Pclass.EnumType.{RuntimeError}
use libki.Serializer.{thrown}

-- put: a value, and the number of its bits.
pub data Step : Type 0 where
  align : Step
  put : ℕ → ℕ → Step

unfoldable pub run : Stream → List Step → Result RuntimeError Stream
run st [] = ok st
run st (align ∷ steps) = thrown (realign bit_buffer_ops st) >>= λ st'. run st' steps
run st (put v n ∷ steps) = thrown (write bit_buffer_ops st v n) >>= λ st'. run st' steps

-- An alignment where there is one.
abbrev pub maybe_align : Bool → List Step → List Step
maybe_align true steps = align ∷ steps
maybe_align false steps = steps

-- The next position of a byte, counted in bits.
abbrev pub aligned : ℕ → ℕ
aligned q = (q + 7) / 8 * 8

unfoldable pub end_of : ℕ → List Step → ℕ
end_of q [] = q
end_of q (align ∷ steps) = end_of (aligned q) steps
end_of q (put v n ∷ steps) = end_of (q + n) steps

abbrev pub AreWords : List Step → Type 0
AreWords [] = Unit {0}
AreWords (align ∷ steps) = AreWords steps
AreWords (put v n ∷ steps) = (n ≤ 64) × AreWords steps

-- The values lie one after the other from bit `q` on, where `bits q n` is the n bits from q on.
abbrev pub Lie : (ℕ → ℕ → ℕ) → ℕ → List Step → Type 0
Lie bits q [] = Unit {0}
Lie bits q (align ∷ steps) = Lie bits (aligned q) steps
Lie bits q (put v n ∷ steps) = (bits q n ≡ v % 2 ^ n) × Lie bits (q + n) steps

pub end_of-le : (steps : List Step) (q : ℕ) → q ≤ end_of q steps
unfolding end_of
end_of-le [] q = omega arith
end_of-le (align ∷ steps) q = omega (arith, end_of-le steps (aligned q))
end_of-le (put v n ∷ steps) q = omega (arith, end_of-le steps (q + n))

-- Where realign goes.
abbrev pub byte_position : BufferPos → BufferPos
byte_position p = buffer_pos (as_bytes p) (pos 0)

pub byte_position_lem :
    (p : BufferPos)
    → IsNormal p
    → offset p + 8 < max_bits
    → IsNormal (byte_position p) × (offset (byte_position p) ≡ aligned (offset p))
unfolding buffer_pos
byte_position_lem p h b = ground (arith, as_bytes_lem p h b)

pub realign_lem :
    {S : Type 0} (b : IBitBuffer S) (st : BitStream S)
    → IsNormal st.m_position
    → realign b st ≡ ok (record st { m_position = byte_position st.m_position })
unfolding realign tell
realign_lem b st h = rw (copy_normal st.m_position h) refl
