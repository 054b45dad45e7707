-- ===== src/Net/Framing/Delivery.antt =====
-- A frame that is fed to a session: process_data gathers the payload and hands it over.
use libki.Common.{
  ℕ, zero, suc, ◌+◌, ◌-◌, ◌*◌, ◌/◌, ◌%◌, ◌^◌, ◌≤◌, ◌<◌, ◌≡◌, refl, ap, ◌∙◌, arith, List, [], ◌∷◌,
  ◌++◌, true, false, leb, length, take, drop, bit_or,
}
use libki.Common.Bits.{
  test_bit_ext, test_bit-or, test_bit-shl, test_bit-mod, test_bit-shr, test_bit-zero,
}
use libki.Io
use libki.Io.{IoStream, good}
use libki.Io.Laws.{Offers}
use libki.Dml.Bytes.{memory}
use libki.Net.Session.{
  Session, waiting_for_start_signal, waiting_for_length, waiting_for_packet, Handlers, again,
  finished, turn, receive_start, receive_length, receive_packet, process, process_data,
  packet_received, frame, shifted_in, start_signal,
}
use libki.Net.Framing.{process-again, process_any_fuel, measure-le}

-- Between two frames.
pub record IsBetweenFrames (s : Session) : Type 0 where
  pub state_is : s.m_receive_state ≡ waiting_for_start_signal
  pub signal_is : s.m_start_signal ≡ 0
  pub shift_is : s.m_shift ≡ 0

-- Between two frames, with a stream on which nothing has failed.
pub record IsIdle (s : Session) : Type 0 where
  pub between : IsBetweenFrames s
  pub stream_is_good : good s.m_data_stream ≡ true

pub bit_or_bytes : (n : ℕ) → bit_or (n % 2 ^ 8) (n / 2 ^ 8 * 2 ^ 8) ≡ n
bit_or_bytes n = test_bit_ext (bit_or (n % 2 ^ 8) (n / 2 ^ 8 * 2 ^ 8)) n (λ i. ground (
  arith,
  test_bit-or i (n % 2 ^ 8) (n / 2 ^ 8 * 2 ^ 8),
  test_bit-mod i 8 n,
  test_bit-shl i 8 (n / 2 ^ 8),
  test_bit-shr (i - 8) 8 n,
))

pub first_byte : (b : ℕ) → b < 256 → shifted_in 0 b 0 ≡ b
first_byte b h = ground (arith, or_zero)
  where
    or_zero : bit_or 0 (b * 2 ^ 0) ≡ b
    or_zero =
        test_bit_ext (bit_or 0 (b * 2 ^ 0)) b
          (λ i. ground (arith, test_bit-or i 0 (b * 2 ^ 0), test_bit-zero i))

-- The two bytes of a number below 2 ^ 16, shifted in one after the other.
pub shifted_in_lem :
    (n : ℕ) → n < 2 ^ 16 → shifted_in (shifted_in 0 (n % 256) 0) (n / 256 % 256) 8 ≡ n
shifted_in_lem n h = ground (arith, first_byte (n % 256), bit_or_bytes n)

-- The stream from which the handlers read a payload: written over what an earlier packet left.
abbrev pub refilled : List ℕ → IoStream → IoStream
refilled payload stream = Io.write payload (Io.rewind_get (Io.rewind_put stream))

abbrev pub after_one : Session → Session
after_one s = record s { m_start_signal = 0x0d; m_shift = 8 }

abbrev pub after_two : Session → Session
after_two s = record s {
  m_start_signal = start_signal;
  m_shift = 0;
  m_incoming_packet_size = 0;
  m_receive_state = waiting_for_length;
}

abbrev pub after_three : ℕ → Session → Session
after_three n s = record (after_two s) { m_incoming_packet_size = n % 256; m_shift = 8 }

abbrev pub after_four : ℕ → Session → Session
after_four n s = record (after_three n s) {
  m_incoming_packet_size = n;
  m_data_stream = Io.rewind_get (Io.rewind_put s.m_data_stream);
  m_receive_state = waiting_for_packet;
}

-- The session when it has the whole payload.
abbrev pub filled : List ℕ → Session → Session
filled payload s = record (after_four (length payload) s) {
  m_data_stream = refilled payload s.m_data_stream;
  m_incoming_packet_size = 0;
}

-- What process_data does behind the handler.
abbrev pub settled : Session → Session
settled s = record s { m_shift = 0; m_start_signal = 0; m_receive_state = waiting_for_start_signal }

module _ {ℓ} {A : Type ℓ} where
  pub take_all : (xs : List A) → take (length xs) xs ≡ xs
  take_all [] = refl
  take_all (x ∷ xs) = ap (λ t. x ∷ t) (take_all xs)

  pub drop_all : (xs : List A) → drop (length xs) xs ≡ []
  drop_all [] = refl
  drop_all (x ∷ xs) = drop_all xs

-- What is behind the first four turns, when the fuel is enough for all.
module _ (h : Handlers) (s : Session) where
  pub turn_one : (rest : List ℕ) → IsBetweenFrames s → turn h 0x0d rest s ≡ again rest (after_one s)
  unfolding turn receive_start
  turn_one rest i = rw (i.state_is, i.signal_is, i.shift_is) refl

  pub turn_two :
      (rest : List ℕ)
      → IsBetweenFrames s
      → turn h 0xf0 rest (after_one s) ≡ again rest (after_two s)
  unfolding turn receive_start
  turn_two rest i = rw (i.state_is) refl

  pub turn_three :
      (n : ℕ) (rest : List ℕ) → turn h (n % 256) rest (after_two s) ≡ again rest (after_three n s)
  unfolding turn receive_length
  turn_three n rest = rw (first_byte (n % 256) (omega arith)) refl

  turn_four :
      (n : ℕ) (rest : List ℕ)
      → n < 2 ^ 16
      → n ≤ s.m_maximum_packet_size
      → turn h (n / 256 % 256) rest (after_three n s) ≡ again rest (after_four n s)
  unfolding turn receive_length
  turn_four n rest small fits = ground (arith, shifted_in_lem n, first_byte (n % 256))

  turn_five :
      (b : ℕ) (bs : List ℕ)
      → turn h b bs (after_four (length (b ∷ bs)) s)
        ≡ again [] (packet_received h (filled (b ∷ bs) s))
  unfolding turn receive_packet
  turn_five b bs =
      rw
        (
          leb_refl (length (b ∷ bs)),
          take_all (b ∷ bs),
          drop_all (b ∷ bs),
          nothing_left (length (b ∷ bs)),
        )
        refl
    where
      leb_refl : (n : ℕ) → leb n n ≡ true
      leb_refl n = ground arith

      nothing_left : (n : ℕ) → n - n ≡ 0
      nothing_left n = omega arith

  -- For a session between two frames and a payload of at least one byte, fewer than 2 ^ 16 and no
  -- more than the session's maximum packet size: process_data on the frame that send_data makes
  -- of the payload finishes, after one call of on_packet_available on a session whose data stream
  -- was rewound and had the payload written to it, with the session's framing reset.
  pub process_data-frame :
      (payload : List ℕ)
      → IsBetweenFrames s
      → 0 < length payload
      → length payload < 2 ^ 16
      → length payload ≤ s.m_maximum_packet_size
      → process_data h (frame payload) s ≡ finished (packet_received h (filled payload s))
  unfolding process_data frame memory process
  process_data-frame [] i some small fits = absurd (omega arith)
  process_data-frame (b ∷ bs) i some small fits =
      let n = length (b ∷ bs) in
      let input = 0x0d ∷ 0xf0 ∷ (n % 256) ∷ (n / 256 % 256) ∷ b ∷ bs in
      let k = 2 * length input in
      process_any_fuel h (2 * length input + 1) (suc (suc (suc (suc (suc k))))) input s
        (measure-le h input s) (omega (arith, measure-le h input s))
      ∙ process-again h (suc (suc (suc (suc k)))) 0x0d _ _ s (after_one s) (turn_one _ i)
      ∙ process-again h (suc (suc (suc k))) 0xf0 _ _ (after_one s) (after_two s) (turn_two _ i)
      ∙ process-again h (suc (suc k)) (n % 256) _ _ (after_two s) (after_three n s) (turn_three n _)
      ∙ process-again h (suc k) (n / 256 % 256) _ _ (after_three n s) (after_four n s)
          (turn_four n _ small fits)
      ∙ process-again h k b bs [] (after_four n s) (packet_received h (filled (b ∷ bs) s))
          (turn_five b bs)
      ∙ at_end k
    where
      at_end :
          (f : ℕ)
          → process h f [] (packet_received h (filled (b ∷ bs) s))
            ≡ finished (packet_received h (filled (b ∷ bs) s))
      at_end zero = refl
      at_end (suc f) = refl

-- A stream with nothing wrong is refilled from its beginning, and keeps what is behind the payload.
pub refilled_lem :
    (payload : List ℕ) (stream : IoStream)
    → good stream ≡ true
    → refilled payload stream ≡ record {
      chars = payload ++ drop (length payload) stream.chars;
      get_pos = 0;
      put_pos = length payload;
      eof = false;
      fail = false;
    }
unfolding Io.write Io.rewind_get Io.rewind_put
refilled_lem payload stream g = ground arith

-- The payload is what the stream offers, and behind it what longer packets left.
pub refilled-Offers :
    (payload : List ℕ) (stream : IoStream)
    → good stream ≡ true
    → Offers (refilled payload stream) (payload ++ drop (length payload) stream.chars)
refilled-Offers payload stream g = record {
  is_good = ap (λ (t : IoStream). good t) (refilled_lem payload stream g);
  input_is = ap (λ (t : IoStream). Io.remaining t) (refilled_lem payload stream g);
}
