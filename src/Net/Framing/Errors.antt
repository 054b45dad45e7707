-- ===== src/Net/Framing/Errors.antt =====
-- The two framing errors, at which process_data closes the session and returns.
use libki.Common.{
  ℕ, suc, ◌+◌, ◌*◌, ◌/◌, ◌%◌, ◌^◌, ◌<◌, ◌≡◌, ◌≢◌, refl, ◌∙◌, arith, List, ◌∷◌, length,
}
use libki.Net.Session.{
  Session, Handlers, again, leave, returned, close, invalid_framing_start_signal,
  invalid_framing_size_exceeds_maximum, turn, receive_start, receive_length, process_data,
  shifted_in, start_signal,
}
use libki.Net.Framing.{process-again, process-leave, process_any_fuel, measure-le}
use libki.Net.Framing.Delivery.{
  IsBetweenFrames, after_two, after_three, first_byte, shifted_in_lem, turn_one, turn_two,
  turn_three,
}

-- Two bytes as the number that they are shifted into.
word_lem : (a b : ℕ) → a < 256 → b < 256 → shifted_in (shifted_in 0 a 0) b 8 ≡ a + 256 * b
word_lem a b p q = rw (low, high) at (shifted_in_lem (a + 256 * b) (omega arith))
  where
    low : (a + 256 * b) % 256 ≡ a
    low = omega arith

    high : (a + 256 * b) / 256 % 256 ≡ b
    high = omega arith

abbrev pub first_shifted : ℕ → Session → Session
first_shifted a s = record s { m_start_signal = a; m_shift = 8 }

module _ (h : Handlers) (s : Session) where
  first_turn :
      (a : ℕ) (rest : List ℕ)
      → IsBetweenFrames s
      → a < 256
      → turn h a rest s ≡ again rest (first_shifted a s)
  unfolding turn receive_start
  first_turn a rest i p = rw (i.state_is, i.signal_is, i.shift_is, first_byte a p) refl

  second_turn :
      (a b : ℕ) (rest : List ℕ)
      → IsBetweenFrames s
      → a < 256
      → b < 256
      → a + 256 * b ≢ start_signal
      → turn h b rest (first_shifted a s)
        ≡ leave (
            close invalid_framing_start_signal
              (record s { m_start_signal = a + 256 * b; m_shift = 8 }))
  unfolding turn receive_start
  second_turn a b rest i p q ne = rw (i.state_is) (ground (arith, word_lem a b p q, first_byte a p))

  -- For a session between two frames and input that begins with two bytes that are not the start
  -- signal, lowest byte first: process_data closes the session with invalid_framing_start_signal
  -- and returns, with the two bytes as start signal and a shift of 8, and looks at no further
  -- byte.
  pub process_data-bad_start :
      (a b : ℕ) (rest : List ℕ)
      → IsBetweenFrames s
      → a < 256
      → b < 256
      → a + 256 * b ≢ start_signal
      → process_data h (a ∷ b ∷ rest) s
        ≡ returned (
            close invalid_framing_start_signal
              (record s { m_start_signal = a + 256 * b; m_shift = 8 }))
  unfolding process_data
  process_data-bad_start a b rest i p q ne =
      let input = a ∷ b ∷ rest in
      let k = 2 * length input in
      process_any_fuel h (k + 1) (suc (suc k)) input s (measure-le h input s)
        (omega (arith, measure-le h input s))
      ∙ process-again h (suc k) a _ _ s (first_shifted a s) (first_turn a _ i p)
      ∙ process-leave h k b rest (first_shifted a s) _ (second_turn a b rest i p q ne)

  large_turn :
      (n : ℕ) (rest : List ℕ)
      → n < 2 ^ 16
      → s.m_maximum_packet_size < n
      → turn h (n / 256 % 256) rest (after_three n s)
        ≡ leave (
            close invalid_framing_size_exceeds_maximum
              (record (after_three n s) { m_incoming_packet_size = n }))
  unfolding turn receive_length
  large_turn n rest small large = ground (arith, shifted_in_lem n, first_byte (n % 256))

  -- For a session between two frames and input that begins with the start signal and a size below
  -- 2 ^ 16 that is more than the session's maximum packet size: process_data closes the session
  -- with invalid_framing_size_exceeds_maximum and returns, still waiting for a length, and looks
  -- at no further byte.
  pub process_data-too_large :
      (n : ℕ) (rest : List ℕ)
      → IsBetweenFrames s
      → n < 2 ^ 16
      → s.m_maximum_packet_size < n
      → process_data h (0x0d ∷ 0xf0 ∷ (n % 256) ∷ (n / 256 % 256) ∷ rest) s
        ≡ returned (
            close invalid_framing_size_exceeds_maximum
              (record (after_three n s) { m_incoming_packet_size = n }))
  unfolding process_data
  process_data-too_large n rest i small large =
      let input = 0x0d ∷ 0xf0 ∷ (n % 256) ∷ (n / 256 % 256) ∷ rest in
      let k = 2 * length input in
      process_any_fuel h (k + 1) (suc (suc (suc (suc k)))) input s (measure-le h input s)
        (omega (arith, measure-le h input s))
      ∙ process-again h (suc (suc (suc k))) 0x0d _ _ s _ (turn_one h s _ i)
      ∙ process-again h (suc (suc k)) 0xf0 _ _ _ (after_two s) (turn_two h s _ i)
      ∙ process-again h (suc k) (n % 256) _ _ (after_two s) (after_three n s) (turn_three h s n _)
      ∙ process-leave h k (n / 256 % 256) rest (after_three n s) _ (large_turn n rest small large)
