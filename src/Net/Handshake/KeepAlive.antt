-- ===== src/Net/Handshake/KeepAlive.antt =====
-- KEEP_ALIVE and KEEP_ALIVE_RSP between the two ends.
use libki.Common.{
  ℕ, suc, ◌-◌, ◌%◌, ◌^◌, ◌≤◌, ◌≡◌, refl, ap, ◌∙◌, arith, List, [], ◌∷◌, ◌++◌, true, false, length,
  drop,
}
use libki.Io.Laws.{advance}
use libki.Dml.Field
use libki.Dml.Record.{get_size, size_fields}
use libki.Dml.Record.RoundTrip.{length-write_to_record}
use libki.Control.{
  ServerKeepAlive, write_server_keep_alive, server_keep_alive_record, keep_alive_opcode,
  keep_alive_rsp_opcode,
}
use libki.Control.RoundTrip.{IsExactServerKeepAlive, read_server_keep_alive-write_server_keep_alive}
use libki.Net.Session.{Session, finished, process_data, frame, send_packet, send_data, sent}
use libki.Net.Clock.{milliseconds, handled}
use libki.Net.Client
use libki.Net.Server
use libki.Net.Framing.Delivery.{IsIdle, IsBetweenFrames, settled}
use libki.Net.Handshake.Delivery.{control_payload, opened, opened-Offers, process_data-control}

length-write_server_keep_alive :
    (m : ServerKeepAlive) → IsExactServerKeepAlive m → length (write_server_keep_alive m) ≡ 6
unfolding write_server_keep_alive server_keep_alive_record get_size size_fields Field.get_size
length-write_server_keep_alive m h =
    length-write_to_record (server_keep_alive_record m) (λ e. omega arith, (λ e. h, tt))

module _ (steady system : ℕ → ℕ) where
  -- For every session of a client, a second send_keep_alive right after a first one changes
  -- nothing and sends nothing.
  pub client-send_keep_alive-twice :
      (s : Session)
      → Client.send_keep_alive steady system (Client.send_keep_alive steady system s)
        ≡ Client.send_keep_alive steady system s
  unfolding Client.send_keep_alive send_packet send_data
  client-send_keep_alive-twice s = ground arith

  -- For every session of a server and any two uptimes, a second send_keep_alive right after a
  -- first one changes nothing and sends nothing.
  pub server-send_keep_alive-twice :
      (uptime later : ℕ) (s : Session)
      → Server.send_keep_alive steady system later (Server.send_keep_alive steady system uptime s)
        ≡ Server.send_keep_alive steady system uptime s
  unfolding Server.send_keep_alive Server.ping send_packet send_data
  server-send_keep_alive-twice uptime later s = ground arith

  -- The client answers a server's keep-alive with the same message.
  client_answer :
      (m : ServerKeepAlive) (c : Session)
      → IsIdle c
      → IsExactServerKeepAlive m
      → 10 ≤ c.m_maximum_packet_size
      → process_data
          (Client.handlers steady system)
          (frame (control_payload keep_alive_opcode (write_server_keep_alive m)))
          c
        ≡ finished (
            settled (
              Client.keep_alive_read steady system m
                (record (opened (control_payload keep_alive_opcode (write_server_keep_alive m)) c) {
                  m_data_stream =
                      advance 6
                        (opened
                          (control_payload keep_alive_opcode (write_server_keep_alive m))
                          c).m_data_stream;
                })))
  unfolding Client.handlers Client.on_control_message Client.on_keep_alive
  client_answer m c i exact fits =
      let body = write_server_keep_alive m in
      let payload = control_payload keep_alive_opcode body in
      let c' = opened payload c in
      let sized = length-write_server_keep_alive m exact in
      process_data-control (Client.handlers steady system) keep_alive_opcode body c i (omega arith)
        (omega (arith, sized)) (omega (arith, sized))
      ∙ ap (λ t. finished (settled (handled (Client.keep_alive_read steady system) c' t)))
          (read_server_keep_alive-write_server_keep_alive m c'.m_data_stream
            (drop (length payload) c.m_data_stream.chars) exact
            (opened-Offers keep_alive_opcode body c i.stream_is_good))

  -- The server takes the response.
  server_takes :
      (m : ServerKeepAlive) (s : Session)
      → IsIdle s
      → IsExactServerKeepAlive m
      → 10 ≤ s.m_maximum_packet_size
      → process_data
          (Server.handlers steady system)
          (frame (control_payload keep_alive_rsp_opcode (write_server_keep_alive m)))
          s
        ≡ finished (
            settled (
              Server.response_read steady system m
                (record (opened
                  (control_payload keep_alive_rsp_opcode (write_server_keep_alive m))
                  s) {
                    m_data_stream =
                        advance 6
                          (opened
                            (control_payload keep_alive_rsp_opcode (write_server_keep_alive m))
                            s).m_data_stream;
                  })))
  unfolding Server.handlers Server.on_control_message Server.on_keep_alive_response
  server_takes m s i exact fits =
      let body = write_server_keep_alive m in
      let payload = control_payload keep_alive_rsp_opcode body in
      let s' = opened payload s in
      let sized = length-write_server_keep_alive m exact in
      process_data-control (Server.handlers steady system) keep_alive_rsp_opcode body s i
        (omega arith) (omega (arith, sized)) (omega (arith, sized))
      ∙ ap (λ t. finished (settled (handled (Server.response_read steady system) s' t)))
          (read_server_keep_alive-write_server_keep_alive m s'.m_data_stream
            (drop (length payload) s.m_data_stream.chars) exact
            (opened-Offers keep_alive_rsp_opcode body s i.stream_is_good))

module _ (steady system steady' system' : ℕ → ℕ) where
  -- Let a server that waits for no response and a client be between two frames, each with a data
  -- stream on which nothing has failed and a maximum packet size of at least 10, and let the
  -- uptime be a number whose four bytes are written in order. Then send_keep_alive of the server
  -- sends one frame and makes it wait, process_data of the client answers it with one frame and
  -- notes its clock's reading as the time of the last heartbeat, and process_data of the server
  -- takes the answer, waits no more, and has as latency the milliseconds between its two clock
  -- readings, modulo 2 ^ 16.
  pub keep_alive_round :
      (uptime : ℕ) (s c : Session)
      → IsIdle s
      → IsIdle c
      → s.m_waiting_for_keep_alive_response ≡ false
      → 10 ≤ s.m_maximum_packet_size
      → 10 ≤ c.m_maximum_packet_size
      → IsExactServerKeepAlive (record { m_timestamp = uptime })
      → (message response : List ℕ) × (s' c' s'' : Session) × (Server.send_keep_alive steady system
            uptime s
          ≡ s')
        × (s'.events ≡ s.events ++ (sent message ∷ []))
        × (s'.m_waiting_for_keep_alive_response ≡ true)
        × (process_data (Client.handlers steady' system') message c ≡ finished c')
        × (c'.events ≡ c.events ++ (sent response ∷ []))
        × (c'.m_last_received_heartbeat_time ≡ steady' c.clock)
        × (process_data (Server.handlers steady system) response s' ≡ finished s'')
        × (s''.m_waiting_for_keep_alive_response ≡ false)
        × (s''.m_latency ≡ milliseconds (steady (suc s.clock) - steady s.clock) % 2 ^ 16)
  unfolding Server.send_keep_alive Server.ping Server.response_read Client.keep_alive_read
      send_packet send_data
  keep_alive_round uptime s c i j idle fits fits' exact = (
    _,
    _,
    Server.ping steady system uptime s,
    _,
    _,
    rw idle refl,
    refl,
    refl,
    client_answer steady' system' (record { m_timestamp = uptime }) c j exact fits',
    refl,
    refl,
    server_takes steady system (record { m_timestamp = uptime })
        (Server.ping steady system uptime s)
        (record { between = still i.between; stream_is_good = i.stream_is_good }) exact fits,
    refl,
    refl,
  )
    where
      still : IsBetweenFrames s → IsBetweenFrames (Server.ping steady system uptime s)
      still b = record { state_is = b.state_is; signal_is = b.signal_is; shift_is = b.shift_is }
