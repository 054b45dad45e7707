-- ===== src/Net/Framing/Chunks.antt =====
-- Input that comes in pieces: process_data on the pieces and on the whole.
pub mod Turns
use libki.Common.{
  ℕ, ◌+◌, ◌-◌, ◌≡◌, ◌⊎◌, inl, inr, refl, ap, ap₂, sym, subst, ◌∙◌, arith, List, [], ◌∷◌, ◌++◌, Bool,
  true, false, Bool-cases, leb, ◌==◌, if◌then◌else◌, length, length-append, take, drop,
}
use libki.Io
use libki.Io.{IoStream, good, write}
use libki.Io.Pieces.{
  outside, take_more, drop_more, write-write, write-inside, take_prefix, drop_prefix,
}
use libki.Net.Framing.Delivery.{take_all, drop_all}
use libki.Net.Session.{
  Session, ReceiveState, waiting_for_start_signal, waiting_for_length, waiting_for_packet, Handlers,
  Turn, again, leave, turn, receive_start, receive_length, receive_packet, packet_received,
}

-- Inside a packet, the payload goes on where the stream has been written.
abbrev pub gap : ReceiveState → IoStream → Bool
gap waiting_for_start_signal stream = false
gap waiting_for_length stream = false
gap waiting_for_packet stream = outside stream

abbrev pub IsInside : Session → Type 0
IsInside s = gap s.m_receive_state s.m_data_stream ≡ false

-- A turn with more input behind.
abbrev pub with_more : List ℕ → Turn → Turn
with_more ys (again more s) = again (more ++ ys) s
with_more ys (leave s) = leave s

abbrev pub after : Turn → Session
after (again more s) = s
after (leave s) = s

module _ (h : Handlers) where
  -- receive_packet when it has decided how much to take.
  abbrev pub taken : ℕ → List ℕ → IoStream → Session → Turn
  taken left rest stream s =
      let s' = record s { m_data_stream = stream; m_incoming_packet_size = left } in
      again rest (if left == 0 then packet_received h s' else s')

  pub receive_packet_lem :
      (k : ℕ) (input : List ℕ) (s : Session)
      → (if leb s.m_incoming_packet_size (length input)
          then s.m_incoming_packet_size
          else length input)
        ≡ k
      → receive_packet h input s
        ≡ taken
            (s.m_incoming_packet_size - k)
            (drop k input)
            (write (take k input) s.m_data_stream)
            s
  unfolding receive_packet
  receive_packet_lem k input s e = rw e refl

  pub start_more :
      (b : ℕ) (bs ys : List ℕ) (s : Session)
      → receive_start b (bs ++ ys) s ≡ with_more ys (receive_start b bs s)
  unfolding receive_start
  start_more b bs ys s = ground arith

  pub length_more :
      (b : ℕ) (bs ys : List ℕ) (s : Session)
      → receive_length b (bs ++ ys) s ≡ with_more ys (receive_length b bs s)
  unfolding receive_length
  length_more b bs ys s = ground arith

  -- The rest of the packet is in the first piece.
  pub packet_more :
      (b : ℕ) (bs ys : List ℕ) (s : Session)
      → leb s.m_incoming_packet_size (length (b ∷ bs)) ≡ true
      → receive_packet h ((b ∷ bs) ++ ys) s ≡ with_more ys (receive_packet h (b ∷ bs) s)
  packet_more b bs ys s e =
      receive_packet_lem s.m_incoming_packet_size ((b ∷ bs) ++ ys) s
        (ground (arith, length-append (b ∷ bs) ys))
      ∙ ap₂
          (λ rest bytes.
            taken (s.m_incoming_packet_size - s.m_incoming_packet_size) rest
              (write bytes s.m_data_stream) s)
          (drop_prefix s.m_incoming_packet_size (b ∷ bs) ys (ground (arith, e)))
          (take_prefix s.m_incoming_packet_size (b ∷ bs) ys (ground (arith, e)))
      ∙ sym (
          ap (with_more ys) (receive_packet_lem s.m_incoming_packet_size (b ∷ bs) s (ground arith)))

  -- The session when the first piece ends inside the packet.
  abbrev pub part : List ℕ → Session → Session
  part xs s = record s {
    m_data_stream = write xs s.m_data_stream;
    m_incoming_packet_size = s.m_incoming_packet_size - length xs;
  }

  pub packet_part :
      (b : ℕ) (bs : List ℕ) (s : Session)
      → leb s.m_incoming_packet_size (length (b ∷ bs)) ≡ false
      → receive_packet h (b ∷ bs) s ≡ again [] (part (b ∷ bs) s)
  packet_part b bs s e =
      receive_packet_lem (length (b ∷ bs)) (b ∷ bs) s (rw e refl)
      ∙ ap₂
          (λ rest bytes.
            taken (s.m_incoming_packet_size - length (b ∷ bs)) rest (write bytes s.m_data_stream) s)
          (drop_all (b ∷ bs)) (take_all (b ∷ bs))
      ∙ ap (λ t. again [] (if t then packet_received h (part (b ∷ bs) s) else part (b ∷ bs) s)) left
    where
      left : (s.m_incoming_packet_size - length (b ∷ bs) == 0) ≡ false
      left = ground arith

  pub packet_rest :
      (xs ys : List ℕ) (s : Session)
      → leb s.m_incoming_packet_size (length xs) ≡ false
      → outside s.m_data_stream ≡ false
      → receive_packet h (xs ++ ys) s ≡ receive_packet h ys (part xs s)
  packet_rest xs ys s e i =
      let inc = s.m_incoming_packet_size in
      let n = length xs in
      let k = if leb (inc - n) (length ys) then inc - n else length ys in
      receive_packet_lem (n + k) (xs ++ ys) s
        (whole inc n (length ys) (length (xs ++ ys)) (length-append xs ys) e)
      ∙ ap
          (λ left.
            taken left (drop (n + k) (xs ++ ys)) (write (take (n + k) (xs ++ ys)) s.m_data_stream)
              s)
          (sub_sub inc n k)
      ∙ ap₂ (λ rest stream. taken (inc - n - k) rest stream s) (drop_more n k xs ys refl)
          (ap (λ bytes. write bytes s.m_data_stream) (take_more n k xs ys refl)
            ∙ sym (write-write xs (take k ys) s.m_data_stream i))
      ∙ sym (receive_packet_lem k ys (part xs s) refl)
    where
      sub_sub : (a b c : ℕ) → a - (b + c) ≡ a - b - c
      sub_sub a b c = omega arith

      whole :
          (a b c l : ℕ)
          → l ≡ b + c
          → leb a b ≡ false
          → (if leb a l then a else l) ≡ b + (if leb (a - b) c then a - b else c)
      whole a b c l p q = ground arith
