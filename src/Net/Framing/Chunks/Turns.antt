-- ===== src/Net/Framing/Chunks/Turns.antt =====
-- One turn of process_data, and the same turn with more input behind.
use libki.Common.{
  ℕ, ◌-◌, ◌≡◌, ◌⊎◌, inl, inr, refl, ap, sym, subst, ◌∙◌, arith, List, [], ◌∷◌, ◌++◌, true, false,
  Bool-cases, leb, ◌==◌, if◌then◌else◌, length, take,
}
use libki.Io
use libki.Io.{IoStream, good, write}
use libki.Io.Pieces.{outside, write-inside}
use libki.Net.Session.{
  Session, ReceiveState, waiting_for_start_signal, waiting_for_length, waiting_for_packet, Handlers,
  again, turn, receive_start, receive_length, receive_packet, packet_received,
}
use libki.Net.Framing.Chunks.{
  IsInside, gap, with_more, after, part, start_more, length_more, packet_more, packet_part,
  packet_rest, receive_packet_lem,
}

module _ (h : Handlers) where
  pub State-cases :
      (r : ReceiveState)
      → (r ≡ waiting_for_start_signal) ⊎ ((r ≡ waiting_for_length) ⊎ (r ≡ waiting_for_packet))
  State-cases waiting_for_start_signal = inl refl
  State-cases waiting_for_length = inr (inl refl)
  State-cases waiting_for_packet = inr (inr refl)

  pub turn_at_start :
      (b : ℕ) (bs : List ℕ) (s : Session)
      → s.m_receive_state ≡ waiting_for_start_signal
      → turn h b bs s ≡ receive_start b bs s
  unfolding turn
  turn_at_start b bs s e = rw e refl

  pub turn_at_length :
      (b : ℕ) (bs : List ℕ) (s : Session)
      → s.m_receive_state ≡ waiting_for_length
      → turn h b bs s ≡ receive_length b bs s
  unfolding turn
  turn_at_length b bs s e = rw e refl

  pub turn_at_packet :
      (b : ℕ) (bs : List ℕ) (s : Session)
      → s.m_receive_state ≡ waiting_for_packet
      → turn h b bs s ≡ receive_packet h (b ∷ bs) s
  unfolding turn
  turn_at_packet b bs s e = rw e refl

  start-IsInside :
      (b : ℕ) (bs more : List ℕ) (s s' : Session)
      → s.m_receive_state ≡ waiting_for_start_signal
      → receive_start b bs s ≡ again more s'
      → IsInside s'
  unfolding receive_start
  start-IsInside b bs more s s' r e = ground arith

  length-IsInside :
      (b : ℕ) (bs more : List ℕ) (s s' : Session)
      → s.m_receive_state ≡ waiting_for_length
      → receive_length b bs s ≡ again more s'
      → IsInside s'
  unfolding receive_length Io.rewind_put Io.rewind_get
  length-IsInside b bs more s s' r e = ground arith

  packet-IsInside :
      (b : ℕ) (bs more : List ℕ) (s s' : Session)
      → s.m_receive_state ≡ waiting_for_packet
      → outside s.m_data_stream ≡ false
      → receive_packet h (b ∷ bs) s ≡ again more s'
      → IsInside s'
  packet-IsInside b bs more s s' r i e = elim (Bool-cases (leb inc (length (b ∷ bs)))) [
    | inl f ↦
        subst IsInside
          (sym (ap (λ t. if t then packet_received h whole else whole) all_read)
            ∙ ap after (sym (receive_packet_lem h inc (b ∷ bs) s (rw f refl)) ∙ e))
          refl
    | inr f ↦ subst IsInside (ap after (sym (packet_part h b bs s f) ∙ e)) (
        ap (λ x. gap x (write (b ∷ bs) s.m_data_stream)) r
        ∙ write-inside (b ∷ bs) s.m_data_stream i)
  ]
    where
      inc : ℕ
      inc = s.m_incoming_packet_size

      whole : Session
      whole = record s {
        m_data_stream = write (take inc (b ∷ bs)) s.m_data_stream;
        m_incoming_packet_size = inc - inc;
      }

      all_read : (inc - inc == 0) ≡ true
      all_read = ground arith

  -- A turn stays inside.
  pub turn-IsInside :
      (b : ℕ) (bs more : List ℕ) (s s' : Session)
      → turn h b bs s ≡ again more s'
      → IsInside s
      → IsInside s'
  turn-IsInside b bs more s s' e i = elim (State-cases s.m_receive_state) [
    | inl r ↦ start-IsInside b bs more s s' r (sym (turn_at_start b bs s r) ∙ e)
    | inr (inl r) ↦ length-IsInside b bs more s s' r (sym (turn_at_length b bs s r) ∙ e)
    | inr (inr r) ↦ packet-IsInside b bs more s s' r (rw r at i) (sym (turn_at_packet b bs s r) ∙ e)
  ]

  -- The first piece ends inside a packet, or the turn does not look behind it.
  pub turn_more :
      (b c : ℕ) (bs cs : List ℕ) (s : Session)
      → IsInside s
      → (turn h b (bs ++ (c ∷ cs)) s ≡ with_more (c ∷ cs) (turn h b bs s))
        ⊎ ((turn h b bs s ≡ again [] (part h (b ∷ bs) s))
            × (turn h b (bs ++ (c ∷ cs)) s ≡ turn h c cs (part h (b ∷ bs) s)))
  turn_more b c bs cs s i = elim (State-cases s.m_receive_state) [
    | inl r ↦ inl (
        turn_at_start b (bs ++ (c ∷ cs)) s r
        ∙ start_more h b bs (c ∷ cs) s
        ∙ ap (with_more (c ∷ cs)) (sym (turn_at_start b bs s r)))
    | inr (inl r) ↦ inl (
        turn_at_length b (bs ++ (c ∷ cs)) s r
        ∙ length_more h b bs (c ∷ cs) s
        ∙ ap (with_more (c ∷ cs)) (sym (turn_at_length b bs s r)))
    | inr (inr r) ↦ elim (Bool-cases (leb s.m_incoming_packet_size (length (b ∷ bs)))) [
      | inl e ↦ inl (
          turn_at_packet b (bs ++ (c ∷ cs)) s r
          ∙ packet_more h b bs (c ∷ cs) s e
          ∙ ap (with_more (c ∷ cs)) (sym (turn_at_packet b bs s r)))
      | inr e ↦ inr (
        turn_at_packet b bs s r ∙ packet_part h b bs s e,
        turn_at_packet b (bs ++ (c ∷ cs)) s r
            ∙ packet_rest h (b ∷ bs) (c ∷ cs) s e (rw r at i)
            ∙ sym (turn_at_packet c cs (part h (b ∷ bs) s) r),
      )
    ]
  ]
