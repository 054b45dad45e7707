-- ===== src/Examples/Sessions.antt =====
-- protocol/net at concrete inputs.
use libki.Common.{
  ℕ, ◌+◌, ◌-◌, ◌*◌, ◌≤◌, ◌≡◌, ◌≢◌, inl, refl, ap, arith, List, [], ◌∷◌, ◌++◌, true, false,
}
use libki.Io.{IoStream, of_string}
use libki.Io.Laws.{Offers}
use libki.Dml.Bytes.{done}
use libki.Control.{SessionAccept, write_accept, read_accept}
use libki.Control.RoundTrip.{read_accept-write_accept}
use libki.Net.Header
use libki.Net.Header.{PacketHeader, header_read_from-write_to}
use libki.Net.Session.{
  Session, Handlers, finished, stuck, session, frame, process_data, packet_received,
  connection_timeout, sent, established,
}
use libki.Net.Clock.{seconds, handled}
use libki.Net.Client
use libki.Net.Server
use libki.Net.Framing.{process_data-ne-stuck}
use libki.Net.Framing.Delivery.{IsIdle, IsBetweenFrames, filled, settled, process_data-frame}
use libki.Net.Framing.Errors.{process_data-bad_start}
use libki.Control.{write_offer, read_offer, SessionOffer}
use libki.Control.RoundTrip.{read_offer-write_offer}
use libki.Net.Session.{returned, close, invalid_framing_start_signal}
use libki.Net.Framing.Broken.{process_data-failed}
use libki.Net.Handshake.Offer.{
  on_session_accept-established, on_session_offer-established, handshake,
}
use libki.Net.Handshake.KeepAlive.{keep_alive_round}

-- Clocks that move by a millisecond from reading to reading.
abbrev steady : ℕ → ℕ
steady n = n * 1000000

abbrev system : ℕ → ℕ
system n = 1542504449000000000 + n * 1000000

abbrev server : Session
server = session steady 0x1234

abbrev client : Session
client = session steady 0

abbrev server_handlers : Handlers
server_handlers = Server.handlers steady system

abbrev client_handlers : Handlers
client_handlers = Client.handlers steady system

server-IsBetweenFrames : IsBetweenFrames server
unfolding session
server-IsBetweenFrames = record { state_is = refl; signal_is = refl; shift_is = refl }

server-IsIdle : IsIdle server
unfolding session
server-IsIdle = record { between = server-IsBetweenFrames; stream_is_good = refl }

client-IsBetweenFrames : IsBetweenFrames client
unfolding session
client-IsBetweenFrames = record { state_is = refl; signal_is = refl; shift_is = refl }

client-IsIdle : IsIdle client
unfolding session
client-IsIdle = record { between = client-IsBetweenFrames; stream_is_good = refl }

process_data-ne-stuck_example :
    process_data client_handlers (0x0d ∷ 0xf0 ∷ 0x00 ∷ 0x00 ∷ 0x0d ∷ []) client ≢ stuck
process_data-ne-stuck_example =
    process_data-ne-stuck client_handlers (0x0d ∷ 0xf0 ∷ 0x00 ∷ 0x00 ∷ 0x0d ∷ []) client

process_data-frame_example :
    process_data client_handlers (frame (1 ∷ 9 ∷ 0 ∷ 0 ∷ [])) client
    ≡ finished (packet_received client_handlers (filled (1 ∷ 9 ∷ 0 ∷ 0 ∷ []) client))
unfolding session
process_data-frame_example =
    process_data-frame client_handlers client (1 ∷ 9 ∷ 0 ∷ 0 ∷ []) client-IsBetweenFrames
      (omega arith) (omega arith) (omega arith)

abbrev failed_client : Session
failed_client = record client {
  m_data_stream = record { chars = 1 ∷ []; get_pos = 1; put_pos = 1; eof = true; fail = true };
}

failed-IsBetweenFrames : IsBetweenFrames failed_client
unfolding session
failed-IsBetweenFrames = record { state_is = refl; signal_is = refl; shift_is = refl }

process_data-failed_example :
    (s' : Session) × (process_data client_handlers (frame (1 ∷ 0 ∷ 0 ∷ 0 ∷ [])) failed_client
      ≡ finished (settled (client_handlers.on_invalid_packet s')))
    × (s'.m_data_stream.fail ≡ true)
unfolding session
process_data-failed_example =
    process_data-failed client_handlers (1 ∷ 0 ∷ 0 ∷ 0 ∷ []) failed_client failed-IsBetweenFrames
      refl (omega arith) (omega arith) (omega arith)

abbrev header : PacketHeader
header = record { m_control = true; m_opcode = 5 }

abbrev header_stream : IoStream
header_stream = of_string (1 ∷ 5 ∷ 0 ∷ 0 ∷ 0x6b ∷ [])

header_offered : Offers header_stream (Header.write_to header ++ (0x6b ∷ []))
unfolding of_string Header.write_to
header_offered = record { is_good = refl; input_is = refl }

handshake_example :
    (offer acceptance : List ℕ) × (s' c' s'' : Session) × (Server.on_connected steady system server
      ≡ s')
    × (s'.events ≡ [] ++ (sent offer ∷ []))
    × (process_data client_handlers offer client ≡ finished c')
    × (c'.events ≡ ([] ++ (sent acceptance ∷ [])) ++ (established ∷ []))
    × (process_data server_handlers acceptance s' ≡ finished s'')
    × (c'.m_established ≡ true)
    × (s''.m_established ≡ true)
    × (c'.m_id ≡ 0x1234)
    × (s''.m_id ≡ 0x1234)
unfolding session
handshake_example =
    handshake steady system steady system server client server-IsIdle client-IsIdle (omega arith)
      (omega arith) (omega arith, (omega arith, inl refl), (omega arith, inl refl))
      (omega arith, (omega arith, inl refl), (omega arith, inl refl)) (omega arith) (omega arith)

keep_alive_round_example :
    (message response : List ℕ) × (s' c' s'' : Session) × (Server.send_keep_alive steady system 500
        server
      ≡ s')
    × (s'.events ≡ [] ++ (sent message ∷ []))
    × (s'.m_waiting_for_keep_alive_response ≡ true)
    × (process_data client_handlers message client ≡ finished c')
    × (c'.events ≡ [] ++ (sent response ∷ []))
    × (c'.m_last_received_heartbeat_time ≡ 1000000)
    × (process_data server_handlers response s' ≡ finished s'')
    × (s''.m_waiting_for_keep_alive_response ≡ false)
    × (s''.m_latency ≡ 1)
unfolding session
keep_alive_round_example =
    keep_alive_round steady system steady system 500 server client server-IsIdle client-IsIdle refl
      (omega arith) (omega arith) (omega arith, inl refl)

abbrev acceptance : SessionAccept
acceptance = record { m_session_id = 0x1234; m_timestamp = 0x5bf0_c001; m_milliseconds = 500 }

-- The acceptance has arrived, behind it nothing.
abbrev accepting : Session
accepting = record server { m_data_stream = of_string (write_accept acceptance ++ []) }

acceptance_offered : Offers accepting.m_data_stream (write_accept acceptance ++ [])
unfolding of_string
acceptance_offered = record { is_good = refl; input_is = refl }

accepting_established : (Server.on_session_accept steady system accepting).m_established ≡ true
unfolding session Server.on_session_accept Server.accepted Server.establish
accepting_established =
    ap (λ t. (handled (Server.accepted steady system) accepting t).m_established)
      (read_accept-write_accept acceptance accepting.m_data_stream []
        (omega arith, (omega arith, inl refl), (omega arith, inl refl)) acceptance_offered)

on_session_accept-established_example :
    (accept : SessionAccept) × (stream : IoStream) × (read_accept accepting.m_data_stream
      ≡ (done accept, stream))
    × (accept.m_session_id ≡ 0x1234)
    × (seconds (1000000 - 0) ≤ connection_timeout)
unfolding session
on_session_accept-established_example =
    on_session_accept-established steady system accepting refl accepting_established

process_data-bad_start_example :
    process_data client_handlers (0x0d ∷ 0xf1 ∷ 7 ∷ []) client
    ≡ returned (
        close invalid_framing_start_signal (record client { m_start_signal = 0xf10d; m_shift = 8 }))
unfolding session
process_data-bad_start_example =
    process_data-bad_start client_handlers client 0x0d 0xf1 (7 ∷ []) client-IsBetweenFrames
      (omega arith) (omega arith) (λ e. omega arith)

abbrev offer : SessionOffer
offer = record { m_session_id = 0x1234; m_timestamp = 0x5bf0_c001; m_milliseconds = 500 }

-- The offer has arrived, behind it nothing.
abbrev choosing : Session
choosing = record client { m_data_stream = of_string (write_offer offer ++ []) }

offer_offered : Offers choosing.m_data_stream (write_offer offer ++ [])
unfolding of_string
offer_offered = record { is_good = refl; input_is = refl }

choosing_established : (Client.on_session_offer steady system choosing).m_established ≡ true
unfolding session Client.on_session_offer Client.offered Client.accept
choosing_established =
    ap (λ t. (handled (Client.offered steady system) choosing t).m_established)
      (read_offer-write_offer offer choosing.m_data_stream []
        (omega arith, (omega arith, inl refl), (omega arith, inl refl)) offer_offered)

on_session_offer-established_example :
    (taken : SessionOffer) × (stream : IoStream) × (read_offer choosing.m_data_stream
      ≡ (done taken, stream))
    × ((Client.on_session_offer steady system choosing).m_id ≡ taken.m_session_id)
    × (seconds (1000000 - 0) ≤ connection_timeout)
unfolding session
on_session_offer-established_example =
    on_session_offer-established steady system choosing refl choosing_established
