-- ===== src/Net/Handshake/Delivery.antt =====
-- A packet that send_packet made reaches the handler of the other end.
use libki.Common.{
  ℕ, ◌+◌, ◌^◌, ◌≤◌, ◌<◌, ◌≡◌, ap, ◌∙◌, arith, List, ◌++◌, Bool, true, if◌then◌else◌, length, drop,
}
use libki.Io.{good}
use libki.Io.Laws.{Offers, advance, advance-Offers}
use libki.Net.Header
use libki.Net.Header.{PacketHeader, header_read_from-write_to}
use libki.Net.Session.{
  Session, Handlers, finished, process_data, on_packet_available, dispatch, frame,
}
use libki.Net.Framing.Delivery.{
  IsIdle, settled, filled, refilled, process_data-frame, refilled-Offers,
}

-- The payload of a packet, and of a control message.
abbrev pub packet_payload : Bool → ℕ → List ℕ → List ℕ
packet_payload is_control opcode body =
    Header.write_to (record { m_control = is_control; m_opcode = opcode }) ++ body

abbrev pub control_payload : ℕ → List ℕ → List ℕ
control_payload opcode body = packet_payload true opcode body

-- What the handler starts from: the header has been read.
abbrev pub opened : List ℕ → Session → Session
opened payload s = record (filled payload s) {
  m_data_stream = advance 4 (refilled payload s.m_data_stream);
}

pub packet-Offers :
    (is_control : Bool) (opcode : ℕ) (body : List ℕ) (s : Session)
    → good s.m_data_stream ≡ true
    → Offers
        (opened (packet_payload is_control opcode body) s).m_data_stream
        (body ++ drop (length (packet_payload is_control opcode body)) s.m_data_stream.chars)
unfolding Header.write_to
packet-Offers is_control opcode body s g =
    advance-Offers (refilled (packet_payload is_control opcode body) s.m_data_stream)
      (Header.write_to (record { m_control = is_control; m_opcode = opcode }))
      (body ++ drop (length (packet_payload is_control opcode body)) s.m_data_stream.chars)
      (refilled-Offers (packet_payload is_control opcode body) s.m_data_stream g)

pub opened-Offers :
    (opcode : ℕ) (body : List ℕ) (s : Session)
    → good s.m_data_stream ≡ true
    → Offers
        (opened (control_payload opcode body) s).m_data_stream
        (body ++ drop (length (control_payload opcode body)) s.m_data_stream.chars)
opened-Offers opcode body s g = packet-Offers true opcode body s g

length-packet_payload :
    (is_control : Bool) (opcode : ℕ) (body : List ℕ)
    → length (packet_payload is_control opcode body) ≡ length body + 4
unfolding Header.write_to
length-packet_payload is_control opcode body = omega arith

module _ (h : Handlers) where
  -- The handler of a packet that could be read.
  abbrev pub handle : PacketHeader → Session → Session
  handle header s =
      if header.m_control then h.on_control_message header s else h.on_application_message header s

  -- The frame of a packet leads to one call of the handler for its kind.
  pub process_data-packet :
      (is_control : Bool) (opcode : ℕ) (body : List ℕ) (s : Session)
      → IsIdle s
      → opcode < 256
      → length body + 4 < 2 ^ 16
      → length body + 4 ≤ s.m_maximum_packet_size
      → process_data h (frame (packet_payload is_control opcode body)) s
        ≡ finished (
            settled (
              handle
                (record { m_control = is_control; m_opcode = opcode })
                (opened (packet_payload is_control opcode body) s)))
  unfolding on_packet_available Header.write_to
  process_data-packet is_control opcode body s i byte small fits =
      let payload = packet_payload is_control opcode body in
      let stream = refilled payload s.m_data_stream in
      let sized = length-packet_payload is_control opcode body in
      process_data-frame h s payload i.between (omega (arith, sized)) (omega (arith, sized))
        (omega (arith, sized))
      ∙ ap (λ t. finished (settled (dispatch h (filled payload s) t)))
          (header_read_from-write_to (record { m_control = is_control; m_opcode = opcode }) stream
            (body ++ drop (length payload) s.m_data_stream.chars) byte
            (refilled-Offers payload s.m_data_stream i.stream_is_good))

  -- For a session between two frames with a data stream on which nothing has failed, an opcode
  -- below 256, and a body that with four bytes more is below 2 ^ 16 and no more than the maximum
  -- packet size: process_data on the frame of a control packet finishes after one call of
  -- on_control_message with the packet's header, on a session whose data stream stands behind the
  -- header, with the session's framing reset.
  pub process_data-control :
      (opcode : ℕ) (body : List ℕ) (s : Session)
      → IsIdle s
      → opcode < 256
      → length body + 4 < 2 ^ 16
      → length body + 4 ≤ s.m_maximum_packet_size
      → process_data h (frame (control_payload opcode body)) s
        ≡ finished (
            settled (
              h.on_control_message
                (record { m_control = true; m_opcode = opcode })
                (opened (control_payload opcode body) s)))
  process_data-control opcode body s i byte small fits =
      process_data-packet true opcode body s i byte small fits
