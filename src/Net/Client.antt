-- ===== src/Net/Client.antt =====
-- ClientSession of protocol/net. `steady` and `system` are the readings of the two clocks.
use libki.Common.{ℕ, ◌-◌, ◌*◌, ◌/◌, ◌%◌, ◌^◌, Bool, true, false, leb, ltb, ◌==◌, if◌then◌else◌}
use libki.Control.{
  SessionOffer, SessionAccept, ClientKeepAlive, ServerKeepAlive, read_offer, write_accept,
  read_client_keep_alive, write_client_keep_alive, read_server_keep_alive, write_server_keep_alive,
  session_offer_opcode, keep_alive_opcode, keep_alive_rsp_opcode, session_accept_opcode,
}
use libki.Net.Header.{PacketHeader}
use libki.Net.Session.{
  Session, Handlers, emit, close, established, invalid_packet, application_message, send_packet,
  connection_timeout, unhandled_control_message, session_offer_timed_out,
}
use libki.Net.Clock.{
  nanoseconds_per_minute, seconds, milliseconds, milliseconds_of_second, tick, read_data,
}

-- In seconds.
abbrev pub server_heartbeat : ℕ
server_heartbeat = 60

module _ (steady system : ℕ → ℕ) where
  unfoldable pub send_keep_alive : Session → Session
  unfolding send_packet write_client_keep_alive
  send_keep_alive s =
      if s.m_waiting_for_keep_alive_response
      then s
      else (let time_since_establish = steady s.clock - s.m_establish_time in
          let minutes = time_since_establish / nanoseconds_per_minute in
          let rest = milliseconds (time_since_establish - minutes * nanoseconds_per_minute) in
          let keep_alive : ClientKeepAlive = record {
            m_session_id = s.m_id;
            m_milliseconds = rest % 2 ^ 16;
            m_minutes = minutes % 2 ^ 16;
          } in
          let sent =
            send_packet true keep_alive_opcode (write_client_keep_alive keep_alive)
              (tick (record s { m_waiting_for_keep_alive_response = true })) in
          tick (record sent { m_last_sent_heartbeat_time = steady sent.clock }))

  -- A const function: the reading that it takes is not counted.
  unfoldable pub is_alive : Session → Bool
  is_alive s =
      if s.m_established
      then leb (seconds (steady s.clock - s.m_last_received_heartbeat_time)) (server_heartbeat * 2)
      else leb (seconds (steady s.clock - s.m_creation_time)) (connection_timeout * 2)

  unfoldable pub on_connected : Session → Session
  on_connected s = tick (record s { m_connection_time = steady s.clock })

  -- The message that on_session_offer answers with.
  abbrev pub accept_of : SessionOffer → Session → SessionAccept
  accept_of offer s =
      let now = system s.clock in
      record {
        m_session_id = offer.m_session_id;
        m_timestamp = seconds now % 2 ^ 32;
        m_milliseconds = milliseconds_of_second now;
      }

  -- on_session_offer behind the two tests.
  unfoldable pub accept : SessionOffer → Session → Session
  unfolding send_packet
  accept offer s =
      let sent =
        send_packet true session_accept_opcode (write_accept (accept_of offer s))
          (tick (record s { m_id = offer.m_session_id })) in
      let time = steady sent.clock in
      emit established (
        tick (record sent {
          m_established = true;
          m_establish_time = time;
          m_last_received_heartbeat_time = time;
        }))

  -- What on_session_offer does with an offer that it could read.
  unfoldable pub offered : SessionOffer → Session → Session
  offered offer s =
      if ltb connection_timeout (seconds (steady s.clock - s.m_connection_time))
      then close session_offer_timed_out (tick s)
      else accept offer (tick s)

  unfoldable pub on_session_offer : Session → Session
  unfolding read_offer offered
  on_session_offer s = read_data read_offer offered s

  unfoldable pub keep_alive_read : ServerKeepAlive → Session → Session
  unfolding send_packet write_server_keep_alive
  keep_alive_read keep_alive s =
      send_packet true keep_alive_rsp_opcode (write_server_keep_alive keep_alive)
        (tick (record s { m_last_received_heartbeat_time = steady s.clock }))

  unfoldable pub on_keep_alive : Session → Session
  unfolding read_server_keep_alive keep_alive_read
  on_keep_alive s = read_data read_server_keep_alive keep_alive_read s

  unfoldable pub response_read : ClientKeepAlive → Session → Session
  response_read keep_alive s = tick (record s {
    m_latency = milliseconds (steady s.clock - s.m_last_sent_heartbeat_time) % 2 ^ 16;
    m_waiting_for_keep_alive_response = false;
  })

  unfoldable pub on_keep_alive_response : Session → Session
  unfolding read_client_keep_alive response_read
  on_keep_alive_response s = read_data read_client_keep_alive response_read s

  unfoldable pub on_control_message : PacketHeader → Session → Session
  unfolding on_session_offer on_keep_alive on_keep_alive_response
  on_control_message header s =
      if header.m_opcode == session_offer_opcode
      then on_session_offer s
      else if header.m_opcode == keep_alive_opcode
      then on_keep_alive s
      else if header.m_opcode == keep_alive_rsp_opcode
      then on_keep_alive_response s
      else close unhandled_control_message s

  -- The handlers that the class defines; what a subclass adds is only noted.
  unfoldable pub handlers : Handlers
  handlers = record {
    on_invalid_packet = emit invalid_packet;
    on_control_message = on_control_message;
    on_application_message = λ header s. emit (application_message header) s;
  }
