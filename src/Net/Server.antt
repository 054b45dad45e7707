-- ===== src/Net/Server.antt =====
-- ServerSession of protocol/net. `steady` and `system` are the readings of the two clocks.
use libki.Common.{ℕ, suc, ◌-◌, ◌*◌, ◌%◌, ◌^◌, Bool, true, false, leb, ltb, ◌==◌, if◌then◌else◌}
use libki.Control.{
  SessionOffer, SessionAccept, ClientKeepAlive, ServerKeepAlive, read_accept, write_offer,
  read_client_keep_alive, write_client_keep_alive, read_server_keep_alive, write_server_keep_alive,
  session_offer_opcode, keep_alive_opcode, keep_alive_rsp_opcode, session_accept_opcode,
}
use libki.Net.Header.{PacketHeader}
use libki.Net.Session.{
  Session, Handlers, emit, close, established, invalid_packet, application_message, send_packet,
  connection_timeout, unhandled_control_message, session_offer_timed_out, invalid_message,
}
use libki.Net.Clock.{seconds, milliseconds, milliseconds_of_second, tick, read_data}

-- In seconds.
abbrev pub client_heartbeat : ℕ
client_heartbeat = 10

module _ (steady system : ℕ → ℕ) where
  -- send_keep_alive behind its test.
  unfoldable pub ping : ℕ → Session → Session
  unfolding send_packet
  ping milliseconds_since_startup s =
      let keep_alive : ServerKeepAlive = record { m_timestamp = milliseconds_since_startup } in
      let sent =
        send_packet true keep_alive_opcode (write_server_keep_alive keep_alive)
          (record s { m_waiting_for_keep_alive_response = true }) in
      tick (record sent { m_last_sent_heartbeat_time = steady sent.clock })

  unfoldable pub send_keep_alive : ℕ → Session → Session
  send_keep_alive milliseconds_since_startup s =
      if s.m_waiting_for_keep_alive_response then s else ping milliseconds_since_startup s

  -- A const function: the reading that it takes is not counted.
  unfoldable pub is_alive : Session → Bool
  is_alive s =
      if s.m_established
      then leb (seconds (steady s.clock - s.m_last_received_heartbeat_time)) (client_heartbeat * 2)
      else leb (seconds (steady s.clock - s.m_creation_time)) (connection_timeout * 2)

  -- The message that on_connected sends, a reading of the steady clock behind the state `s`.
  abbrev pub offer_of : Session → SessionOffer
  offer_of s =
      let now = system (suc s.clock) in
      record {
        m_session_id = s.m_id;
        m_timestamp = seconds now % 2 ^ 32;
        m_milliseconds = milliseconds_of_second now;
      }

  unfoldable pub on_connected : Session → Session
  unfolding send_packet
  on_connected s =
      send_packet true session_offer_opcode (write_offer (offer_of s))
        (tick (tick (record s { m_connection_time = steady s.clock })))

  -- on_session_accept behind the tests.
  unfoldable pub establish : Session → Session
  establish s = emit established (
      tick (record s {
        m_established = true;
        m_establish_time = steady s.clock;
        m_last_received_heartbeat_time = steady s.clock;
      }))

  -- What on_session_accept does with a message that it could read.
  unfoldable pub accepted : SessionAccept → Session → Session
  accepted accept s =
      if ltb connection_timeout (seconds (steady s.clock - s.m_connection_time))
      then close session_offer_timed_out (tick s)
      else if accept.m_session_id == s.m_id
      then establish (tick s)
      else close invalid_message (tick s)

  unfoldable pub on_session_accept : Session → Session
  unfolding read_accept accepted
  on_session_accept s = read_data read_accept accepted s

  unfoldable pub keep_alive_read : ClientKeepAlive → Session → Session
  unfolding send_packet write_client_keep_alive
  keep_alive_read keep_alive s =
      send_packet true keep_alive_rsp_opcode (write_client_keep_alive keep_alive)
        (tick (record s { m_last_received_heartbeat_time = steady s.clock }))

  unfoldable pub on_keep_alive : Session → Session
  unfolding read_client_keep_alive keep_alive_read
  on_keep_alive s = read_data read_client_keep_alive keep_alive_read s

  unfoldable pub response_read : ServerKeepAlive → Session → Session
  response_read keep_alive s = tick (record s {
    m_latency = milliseconds (steady s.clock - s.m_last_sent_heartbeat_time) % 2 ^ 16;
    m_waiting_for_keep_alive_response = false;
  })

  unfoldable pub on_keep_alive_response : Session → Session
  unfolding read_server_keep_alive response_read
  on_keep_alive_response s = read_data read_server_keep_alive response_read s

  unfoldable pub on_control_message : PacketHeader → Session → Session
  unfolding on_session_accept on_keep_alive on_keep_alive_response
  on_control_message header s =
      if header.m_opcode == session_accept_opcode
      then on_session_accept s
      else if header.m_opcode == keep_alive_opcode
      then on_keep_alive s
      else if header.m_opcode == keep_alive_rsp_opcode
      then on_keep_alive_response s
      else close unhandled_control_message s

  -- The handlers that the class defines; what a subclass adds is only noted.
  unfoldable pub handlers : Handlers
  handlers = record {
    on_invalid_packet = emit invalid_packet;
    on_control_message = on_control_message;
    on_application_message = λ header s. emit (application_message header) s;
  }
