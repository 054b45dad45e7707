-- ===== src/Net/Framing.antt =====
-- Framing: process_data ends on every input.
pub mod Delivery
pub mod Broken
pub mod Errors
pub mod Chunks
pub mod Joined
pub mod Bounds
use libki.Common.{
  ℕ, zero, suc, ◌+◌, ◌-◌, ◌*◌, ◌%◌, ◌^◌, ◌≤◌, ◌<◌, ◌≡◌, ◌≢◌, ◌⊎◌, inl, inr, refl, ap, sym, ◌∙◌,
  arith, List, [], ◌∷◌, ◌++◌, Bool, true, false, ltb, leb, ◌==◌, if◌then◌else◌, length, length-drop,
  take, drop, bit_or,
}
use libki.Net.Session.{
  Session, ReceiveState, waiting_for_start_signal, waiting_for_length, waiting_for_packet, Handlers,
  Turn, again, leave, Processed, finished, returned, stuck, turn, receive_start, receive_length,
  receive_packet, process, process_data, packet_received,
}

abbrev weight : ReceiveState → ℕ
weight waiting_for_packet = 1
weight waiting_for_start_signal = 0
weight waiting_for_length = 0

-- What is left to do: two turns for a byte at most.
abbrev pub measure : List ℕ → Session → ℕ
measure input s = 2 * length input + weight s.m_receive_state

pub Turn-cases :
    (t : Turn)
    → ((more : List ℕ) × (s : Session) × (t ≡ again more s)) ⊎ ((s : Session) × (t ≡ leave s))
Turn-cases (again more s) = inl (more, s, refl)
Turn-cases (leave s) = inr (s, refl)

module _ (h : Handlers) where
  start_shrinks :
      (byte : ℕ) (rest more : List ℕ) (s s' : Session)
      → receive_start byte rest s ≡ again more s'
      → measure more s' < 2 * length (byte ∷ rest)
  unfolding receive_start
  start_shrinks byte rest more s s' e = ground arith

  length_shrinks :
      (byte : ℕ) (rest more : List ℕ) (s s' : Session)
      → receive_length byte rest s ≡ again more s'
      → measure more s' < 2 * length (byte ∷ rest)
  unfolding receive_length
  length_shrinks byte rest more s s' e = ground arith

  packet_shrinks :
      (byte : ℕ) (rest more : List ℕ) (s s' : Session)
      → receive_packet h (byte ∷ rest) s ≡ again more s'
      → measure more s' < 2 * length (byte ∷ rest) + 1
  unfolding receive_packet
  packet_shrinks byte rest more s s' e = ground (
    arith,
    length-drop s.m_incoming_packet_size (byte ∷ rest),
    length-drop (suc (length rest)) (byte ∷ rest),
  )

  pub turn_shrinks :
      (byte : ℕ) (rest more : List ℕ) (s s' : Session)
      → turn h byte rest s ≡ again more s'
      → measure more s' < measure (byte ∷ rest) s
  unfolding turn
  turn_shrinks byte rest more s s' e = ground (
    arith,
    start_shrinks byte rest more s s',
    length_shrinks byte rest more s s',
    packet_shrinks byte rest more s s',
  )

  pub process-again :
      (f byte : ℕ) (rest more : List ℕ) (s s' : Session)
      → turn h byte rest s ≡ again more s'
      → process h (suc f) (byte ∷ rest) s ≡ process h f more s'
  unfolding process
  process-again f byte rest more s s' e = rw (e, process) refl

  pub process-leave :
      (f byte : ℕ) (rest : List ℕ) (s s' : Session)
      → turn h byte rest s ≡ leave s'
      → process h (suc f) (byte ∷ rest) s ≡ returned s'
  unfolding process
  process-leave f byte rest s s' e = rw (e, process) refl

  -- With fuel for all turns the loop ends, and more fuel changes nothing.
  pub process_any_fuel :
      (f g : ℕ) (input : List ℕ) (s : Session)
      → measure input s ≤ f
      → measure input s ≤ g
      → process h f input s ≡ process h g input s
  unfolding process
  process_any_fuel zero zero [] s p q = refl
  process_any_fuel zero (suc g) [] s p q = refl
  process_any_fuel (suc f) zero [] s p q = refl
  process_any_fuel (suc f) (suc g) [] s p q = refl
  process_any_fuel zero g (byte ∷ rest) s p q = absurd (omega arith)
  process_any_fuel (suc f) zero (byte ∷ rest) s p q = absurd (omega arith)
  process_any_fuel (suc f) (suc g) (byte ∷ rest) s p q = elim (Turn-cases (turn h byte rest s)) [
    | inl (more, s', e) ↦
        let less = turn_shrinks byte rest more s s' e in
        process-again f byte rest more s s' e
        ∙ process_any_fuel f g more s' (omega (arith, less)) (omega (arith, less))
        ∙ sym (process-again g byte rest more s s' e)
    | inr (s', e) ↦ process-leave f byte rest s s' e ∙ sym (process-leave g byte rest s s' e)
  ]

  process-ne-stuck :
      (f : ℕ) (input : List ℕ) (s : Session) → measure input s ≤ f → process h f input s ≢ stuck
  unfolding process
  process-ne-stuck zero [] s p e = cc
  process-ne-stuck (suc f) [] s p e = cc
  process-ne-stuck zero (byte ∷ rest) s p e = omega arith
  process-ne-stuck (suc f) (byte ∷ rest) s p q = elim (Turn-cases (turn h byte rest s)) [
    | inl (more, s', e) ↦
        process-ne-stuck f more s' (omega (arith, turn_shrinks byte rest more s s' e))
          (sym (process-again f byte rest more s s' e) ∙ q)
    | inr (s', e) ↦ let ended = process-leave f byte rest s s' e in cc
  ]

  pub measure-le : (input : List ℕ) (s : Session) → measure input s ≤ 2 * length input + 1
  measure-le input s = ground arith

  -- Whatever the handlers do, in every state of the session and on every input, process_data ends
  -- within two turns of its loop for each byte and one more.
  pub process_data-ne-stuck : (input : List ℕ) (s : Session) → process_data h input s ≢ stuck
  unfolding process_data
  process_data-ne-stuck input s =
      process-ne-stuck (2 * length input + 1) input s (measure-le input s)
