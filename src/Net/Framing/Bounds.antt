-- ===== src/Net/Framing/Bounds.antt =====
-- The bounds that the framing of a session keeps, whatever comes in and whatever the handlers do.
use libki.Common.{
  ℕ, zero, suc, ◌+◌, ◌*◌, ◌^◌, ◌<◌, ◌≡◌, ◌≢◌, ◌⊎◌, inl, inr, refl, ap, sym, subst, arith, List, [],
  ◌∷◌, Bool, true, ◌||◌, leb, ◌==◌, length,
}
use libki.Net.Session.{
  Session, ReceiveState, waiting_for_start_signal, waiting_for_length, waiting_for_packet, Handlers,
  Processed, finished, returned, stuck, turn, receive_start, receive_length, receive_packet,
  process, process_data,
}
use libki.Net.Framing.{Turn-cases, process-again, process-leave, process_data-ne-stuck}
use libki.Net.Framing.Chunks.{after}
use libki.Net.Framing.Chunks.Turns.{State-cases, turn_at_start, turn_at_length, turn_at_packet}

abbrev within : ReceiveState → ℕ → ℕ → Bool
within waiting_for_start_signal size max = true
within waiting_for_length size max = true
within waiting_for_packet size max = leb size max

-- The signal fits 16 bits, a byte is shifted by 0 or 8 bits, and what is left of a packet is no more
-- than the maximum packet size.
pub record IsFraming (s : Session) : Type 0 where
  pub signal : s.m_start_signal < 2 ^ 16
  pub shift : ((s.m_shift == 0) || (s.m_shift == 8)) ≡ true
  pub size : within s.m_receive_state s.m_incoming_packet_size s.m_maximum_packet_size ≡ true

abbrev EndsFraming : Processed → Type 0
EndsFraming (finished s) = IsFraming s
EndsFraming (returned s) = IsFraming s
EndsFraming stuck = Unit {0}

module _ (h : Handlers) where
  start-IsFraming :
      (b : ℕ) (bs : List ℕ) (s : Session)
      → s.m_receive_state ≡ waiting_for_start_signal
      → IsFraming s
      → IsFraming (after (receive_start b bs s))
  unfolding receive_start
  start-IsFraming b bs s r i = record {
    signal = ground arith;
    shift = ground (arith, i.shift);
    size = ground arith;
  }

  length-IsFraming :
      (b : ℕ) (bs : List ℕ) (s : Session)
      → s.m_receive_state ≡ waiting_for_length
      → IsFraming s
      → IsFraming (after (receive_length b bs s))
  unfolding receive_length
  length-IsFraming b bs s r i = record {
    signal = ground (arith, i.signal);
    shift = ground (arith, i.shift);
    size = ground arith;
  }

  packet-IsFraming :
      (b : ℕ) (bs : List ℕ) (s : Session)
      → s.m_receive_state ≡ waiting_for_packet
      → IsFraming s
      → IsFraming (after (receive_packet h (b ∷ bs) s))
  unfolding receive_packet
  packet-IsFraming b bs s r i = record {
    signal = ground (arith, i.signal);
    shift = ground (arith, i.shift);
    size = ground (arith, i.size);
  }

  turn-IsFraming :
      (b : ℕ) (bs : List ℕ) (s : Session) → IsFraming s → IsFraming (after (turn h b bs s))
  turn-IsFraming b bs s i = elim (State-cases h s.m_receive_state) [
    | inl r ↦
        subst (λ t. IsFraming (after t)) (sym (turn_at_start h b bs s r))
          (start-IsFraming b bs s r i)
    | inr (inl r) ↦
        subst (λ t. IsFraming (after t)) (sym (turn_at_length h b bs s r))
          (length-IsFraming b bs s r i)
    | inr (inr r) ↦
        subst (λ t. IsFraming (after t)) (sym (turn_at_packet h b bs s r))
          (packet-IsFraming b bs s r i)
  ]

  process-EndsFraming :
      (f : ℕ) (input : List ℕ) (s : Session) → IsFraming s → EndsFraming (process h f input s)
  unfolding process
  process-EndsFraming zero [] s i = i
  process-EndsFraming (suc f) [] s i = i
  process-EndsFraming zero (b ∷ bs) s i = tt
  process-EndsFraming (suc f) (b ∷ bs) s i = elim (Turn-cases (turn h b bs s)) [
    | inl (more, s', e) ↦
        subst EndsFraming (sym (process-again h f b bs more s s' e))
          (process-EndsFraming f more s' (subst IsFraming (ap after e) (turn-IsFraming b bs s i)))
    | inr (s', e) ↦
        subst EndsFraming (sym (process-leave h f b bs s s' e))
          (subst IsFraming (ap after e) (turn-IsFraming b bs s i))
  ]

  ended :
      (x : Processed)
      → x ≢ stuck
      → EndsFraming x
      → (s' : Session) × ((x ≡ finished s') ⊎ (x ≡ returned s')) × IsFraming s'
  ended (finished s') n i = (s', inl refl, i)
  ended (returned s') n i = (s', inr refl, i)
  ended stuck n i = absurd (n refl)

  process_data-ends :
      (input : List ℕ) (s : Session) → IsFraming s → EndsFraming (process_data h input s)
  unfolding process_data
  process_data-ends input s i = process-EndsFraming (2 * length input + 1) input s i

  -- Whatever comes in and whatever the handlers do: if the start signal of a session is below 2 ^
  -- 16, its shift is 0 or 8 and, inside a packet, what is left of the packet is no more than the
  -- maximum packet size, then process_data ends, by using up its input or by returning before,
  -- with a session of which the same holds.
  pub process_data-IsFraming :
      (input : List ℕ) (s : Session)
      → IsFraming s
      → (s' : Session) × ((process_data h input s ≡ finished s')
          ⊎ (process_data h input s ≡ returned s'))
        × IsFraming s'
  process_data-IsFraming input s i =
      ended (process_data h input s) (process_data-ne-stuck h input s) (process_data-ends input s i)
