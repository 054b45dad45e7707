-- ===== src/Net/DmlSession/Delivery.antt =====
-- A message that one end sends, the other end's subclass gets, when the session's access level allows it.
use libki.Common.{
  ℕ, ◌+◌, ◌^◌, ◌≤◌, ◌<◌, ◌≡◌, refl, ap, ◌∙◌, arith, List, [], ◌∷◌, ◌++◌, length, length-append,
  drop, true, false, leb, if◌then◌else◌,
}
use libki.Io.{good}
use libki.Io.Laws.{advance}
use libki.Dml.Record
use libki.Dml.Record.{DmlRecord}
use libki.Dml.Record.RoundTrip.{length-write_to_record}
use libki.Message.Header.{write_header}
use libki.Message.Template
use libki.Message.Template.{MessageTemplate}
use libki.Message.Body
use libki.Message.Body.{Message}
use libki.Message.Body.RoundTrip.{full, header_for, length-write_header, IsSendable}
use libki.Message.Manager.{MessageManager}
use libki.Message.Manager.Binary.RoundTrip.{Finds, message_from_binary-write_to}
use libki.Net.Header.{PacketHeader}
use libki.Net.Session.{Session, sent, Handlers, finished, process_data, frame, send_packet}
use libki.Net.Framing.Delivery.{IsIdle, settled, refilled}
use libki.Net.Handshake.Delivery.{packet_payload, opened, packet-Offers, process_data-packet}
use libki.Net.DmlSession.{
  DmlHandlers, insufficient_access, send_message, message_read, read_result, with_messages,
  on_application_message,
}

full_size :
    (t : MessageTemplate) (r : DmlRecord)
    → IsSendable t r
    → length (Body.write_to (full t r)) ≡ 4 + Record.get_size r
unfolding Body.write_to Body.message
full_size t r i =
    length-append (write_header (header_for t r)) (Record.write_to r)
    ∙ omega (
      arith,
      length-write_header (header_for t r) i.service_id i.type,
      length-write_to_record r i.exact,
    )

-- What the other end's handler starts from: the message has been read.
abbrev pub message_taken : MessageTemplate → DmlRecord → Session → Session
message_taken t r s =
    let payload = packet_payload false 0 (Body.write_to (full t r)) in
    record (opened payload s) {
      m_data_stream =
          advance (4 + Record.get_size r) (advance 4 (refilled payload s.m_data_stream));
    }

module _ (manager : MessageManager) (d : DmlHandlers) (h : Handlers) where
  on_application_message_lem :
      (t : MessageTemplate) (r : DmlRecord) (s : Session) (header : PacketHeader)
      → IsSendable t r
      → Finds manager t.m_service_id t.m_type t
      → Record.get_size t.m_record ≤ Record.get_size r
      → good s.m_data_stream ≡ true
      → on_application_message manager d header
          (opened (packet_payload false 0 (Body.write_to (full t r))) s)
        ≡ (if leb (Template.get_access_level t) s.m_access_level
            then d.on_message (full t r) (message_taken t r s)
            else d.on_invalid_message insufficient_access (message_taken t r s))
  unfolding on_application_message message_read Body.get_access_level Body.message
  on_application_message_lem t r s header i found enough g =
      let body = Body.write_to (full t r) in
      let o = opened (packet_payload false 0 body) s in
      ap (read_result manager d o) (
        message_from_binary-write_to manager t r o.m_data_stream
          (drop (length (packet_payload false 0 body)) s.m_data_stream.chars) found i.service_id
          i.type i.same i.exact enough i.size (packet-Offers false 0 body s g))

  -- Let a message have a template and a record such that service id and type are below 2 ^ 8, the
  -- record has the template's fields up to the values of transferable ones, its values are
  -- written exactly, and its size is at least that of the template's own record and with eight
  -- bytes more below 2 ^ 16 and no more than the receiver's maximum packet size. Let the receiver
  -- be between two frames with a data stream on which nothing has failed, and let its manager
  -- have the template under that service id and type. Then send_message sends one piece of data,
  -- and process_data of a session with DMLSession's handler on it finishes, with its framing
  -- reset, after one call: of on_message with the same message if the session's access level is
  -- at least the template's, otherwise of on_invalid_message with INSUFFICIENT_ACCESS; the data
  -- stream then stands behind the message.
  pub process_data-send_message :
      (t : MessageTemplate) (r : DmlRecord) (a s : Session)
      → IsSendable t r
      → Finds manager t.m_service_id t.m_type t
      → Record.get_size t.m_record ≤ Record.get_size r
      → IsIdle s
      → Record.get_size r + 8 < 2 ^ 16
      → Record.get_size r + 8 ≤ s.m_maximum_packet_size
      → (bytes : List ℕ) × ((send_message (full t r) a).events ≡ a.events ++ (sent bytes ∷ []))
        × (process_data (with_messages manager d h) bytes s
            ≡ finished (
                settled (
                  if leb (Template.get_access_level t) s.m_access_level
                  then d.on_message (full t r) (message_taken t r s)
                  else d.on_invalid_message insufficient_access (message_taken t r s))))
  unfolding send_message send_packet
  process_data-send_message t r a s i found enough idle small fits = (
    frame (packet_payload false 0 (Body.write_to (full t r))),
    refl,
    process_data-packet (with_messages manager d h) false 0 (Body.write_to (full t r)) s idle
          (omega arith) (omega (arith, full_size t r i)) (omega (arith, full_size t r i))
        ∙ ap (λ x. finished (settled x))
            (on_application_message_lem t r s (record { m_control = false; m_opcode = 0 }) i found
              enough idle.stream_is_good),
  )
