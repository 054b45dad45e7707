-- ===== src/Net/Handshake/Offer.antt =====
-- SESSION_OFFER and SESSION_ACCEPT: when a session is established, and that the two ends agree.
use libki.Common.{
  ℕ, suc, ◌-◌, ◌≤◌, ◌≡◌, refl, ap, ◌∙◌, arith, List, [], ◌∷◌, ◌++◌, true, false, length, drop,
}
use libki.Io.{IoStream}
use libki.Io.Laws.{advance}
use libki.Dml.Bytes.{Try, done, raise}
use libki.Dml.Field
use libki.Dml.Record.{get_size, size_fields}
use libki.Dml.Record.RoundTrip.{length-write_to_record}
use libki.Control.{
  ProtocolError, read_offer, SessionOffer, SessionAccept, session_offer_opcode,
  session_accept_opcode, write_offer, write_accept, read_accept, offer_record, accept_record,
}
use libki.Control.RoundTrip.{
  IsExactSessionOffer, IsExactSessionAccept, read_offer-write_offer, read_accept-write_accept,
  zero-IsExact,
}
use libki.Net.Session.{
  Session, finished, process_data, frame, send_packet, send_data, connection_timeout, sent,
  established,
}
use libki.Net.Clock.{seconds, tick, handled}
use libki.Net.Client
use libki.Net.Server
use libki.Net.Framing.Delivery.{IsIdle, IsBetweenFrames, settled}
use libki.Net.Handshake.Delivery.{control_payload, opened, opened-Offers, process_data-control}

length-write_offer : (m : SessionOffer) → IsExactSessionOffer m → length (write_offer m) ≡ 14
unfolding write_offer offer_record get_size size_fields Field.get_size
length-write_offer m h =
    length-write_to_record (offer_record m)
      (λ e. h.0, (λ e. zero-IsExact, (λ e. h.1, (λ e. h.2, tt))))

length-write_accept : (m : SessionAccept) → IsExactSessionAccept m → length (write_accept m) ≡ 16
unfolding write_accept accept_record get_size size_fields Field.get_size
length-write_accept m h =
    length-write_to_record (accept_record m)
      (λ e. omega arith, (λ e. zero-IsExact, (λ e. h.1, (λ e. h.2, (λ e. h.0, tt)))))

module _ (steady system : ℕ → ℕ) where
  accepted-established :
      (s : Session) (t : Try ProtocolError SessionAccept × IoStream)
      → s.m_established ≡ false
      → (handled (Server.accepted steady system) s t).m_established ≡ true
      → (accept : SessionAccept) × (stream : IoStream) × (t ≡ (done accept, stream))
        × (accept.m_session_id ≡ s.m_id)
        × (seconds (steady s.clock - s.m_connection_time) ≤ connection_timeout)
  unfolding Server.accepted
  accepted-established s (raise e, stream) fresh h = cc
  accepted-established s (done accept, stream) fresh h =
      (accept, stream, refl, ground arith, ground arith)

  -- If a session of the server is not established and is after on_session_accept, then a
  -- SESSION_ACCEPT could be read from its data stream, it names the session's id, and no more
  -- than three whole seconds had passed since the connection.
  pub on_session_accept-established :
      (s : Session)
      → s.m_established ≡ false
      → (Server.on_session_accept steady system s).m_established ≡ true
      → (accept : SessionAccept) × (stream : IoStream) × (read_accept s.m_data_stream
          ≡ (done accept, stream))
        × (accept.m_session_id ≡ s.m_id)
        × (seconds (steady s.clock - s.m_connection_time) ≤ connection_timeout)
  unfolding Server.on_session_accept
  on_session_accept-established s fresh h =
      accepted-established s (read_accept s.m_data_stream) fresh h

  offered-established :
      (c : Session) (t : Try ProtocolError SessionOffer × IoStream)
      → c.m_established ≡ false
      → (handled (Client.offered steady system) c t).m_established ≡ true
      → (offer : SessionOffer) × (stream : IoStream) × (t ≡ (done offer, stream))
        × ((handled (Client.offered steady system) c t).m_id ≡ offer.m_session_id)
        × (seconds (steady c.clock - c.m_connection_time) ≤ connection_timeout)
  unfolding Client.offered Client.accept send_packet send_data
  offered-established c (raise e, stream) fresh h = cc
  offered-established c (done offer, stream) fresh h =
      (offer, stream, refl, ground arith, ground arith)

  -- If a session of the client is not established and is after on_session_offer, then a
  -- SESSION_OFFER could be read from its data stream, the session has taken the offer's id, and
  -- no more than three whole seconds had passed since the connection.
  pub on_session_offer-established :
      (c : Session)
      → c.m_established ≡ false
      → (Client.on_session_offer steady system c).m_established ≡ true
      → (offer : SessionOffer) × (stream : IoStream) × (read_offer c.m_data_stream
          ≡ (done offer, stream))
        × ((Client.on_session_offer steady system c).m_id ≡ offer.m_session_id)
        × (seconds (steady c.clock - c.m_connection_time) ≤ connection_timeout)
  unfolding Client.on_session_offer
  on_session_offer-established c fresh h =
      offered-established c (read_offer c.m_data_stream) fresh h

  offered_in_time :
      (m : SessionOffer) (c : Session)
      → seconds (steady c.clock - c.m_connection_time) ≤ connection_timeout
      → Client.offered steady system m c ≡ Client.accept steady system m (tick c)
  unfolding Client.offered
  offered_in_time m c in_time = ground arith

  accepted_in_time :
      (m : SessionAccept) (s : Session)
      → m.m_session_id ≡ s.m_id
      → seconds (steady s.clock - s.m_connection_time) ≤ connection_timeout
      → Server.accepted steady system m s ≡ Server.establish steady system (tick s)
  unfolding Server.accepted
  accepted_in_time m s same in_time = ground arith

  -- A session of the client that gets an exact offer in time: what process_data makes of it.
  pub client_offer :
      (m : SessionOffer) (c : Session)
      → IsIdle c
      → IsExactSessionOffer m
      → 18 ≤ c.m_maximum_packet_size
      → seconds (steady c.clock - c.m_connection_time) ≤ connection_timeout
      → process_data
          (Client.handlers steady system)
          (frame (control_payload session_offer_opcode (write_offer m)))
          c
        ≡ finished (
            settled (
              Client.accept steady system m (
                tick (record (opened (control_payload session_offer_opcode (write_offer m)) c) {
                  m_data_stream =
                      advance 14
                        (opened
                          (control_payload session_offer_opcode (write_offer m))
                          c).m_data_stream;
                }))))
  unfolding Client.handlers Client.on_control_message Client.on_session_offer
  client_offer m c i exact fits in_time =
      let body = write_offer m in
      let payload = control_payload session_offer_opcode body in
      let c' = opened payload c in
      let sized = length-write_offer m exact in
      process_data-control (Client.handlers steady system) session_offer_opcode body c i
        (omega arith) (omega (arith, sized)) (omega (arith, sized))
      ∙ ap (λ t. finished (settled (handled (Client.offered steady system) c' t)))
          (read_offer-write_offer m c'.m_data_stream (drop (length payload) c.m_data_stream.chars)
            exact (opened-Offers session_offer_opcode body c i.stream_is_good))
      ∙ ap (λ t. finished (settled t))
          (offered_in_time m (record c' { m_data_stream = advance 14 c'.m_data_stream }) in_time)

  pub server_accept :
      (m : SessionAccept) (s : Session)
      → IsIdle s
      → IsExactSessionAccept m
      → 20 ≤ s.m_maximum_packet_size
      → m.m_session_id ≡ s.m_id
      → seconds (steady s.clock - s.m_connection_time) ≤ connection_timeout
      → process_data
          (Server.handlers steady system)
          (frame (control_payload session_accept_opcode (write_accept m)))
          s
        ≡ finished (
            settled (
              Server.establish steady system (
                tick (record (opened (control_payload session_accept_opcode (write_accept m)) s) {
                  m_data_stream =
                      advance 16
                        (opened
                          (control_payload session_accept_opcode (write_accept m))
                          s).m_data_stream;
                }))))
  unfolding Server.handlers Server.on_control_message Server.on_session_accept
  server_accept m s i exact fits same in_time =
      let body = write_accept m in
      let payload = control_payload session_accept_opcode body in
      let s' = opened payload s in
      let sized = length-write_accept m exact in
      process_data-control (Server.handlers steady system) session_accept_opcode body s i
        (omega arith) (omega (arith, sized)) (omega (arith, sized))
      ∙ ap (λ t. finished (settled (handled (Server.accepted steady system) s' t)))
          (read_accept-write_accept m s'.m_data_stream (drop (length payload) s.m_data_stream.chars)
            exact (opened-Offers session_accept_opcode body s i.stream_is_good))
      ∙ ap (λ t. finished (settled t))
          (accepted_in_time m (record s' { m_data_stream = advance 16 s'.m_data_stream }) same
            in_time)

module _ (steady system steady' system' : ℕ → ℕ) where
  -- Let a server and a client be between two frames, each with a data stream on which nothing has
  -- failed and a maximum packet size of at least 20 and 18, let the offer and its acceptance be
  -- messages whose bytes are written in order, and let no more than three whole seconds pass by
  -- the client's clock since it connected, nor by the server's between its own connection and the
  -- arrival of the acceptance. Then on_connected of the server sends one frame, process_data of
  -- the client answers that frame with one frame and establishes the session, process_data of the
  -- server takes the answer and establishes its session, and both sessions have the server's id.
  pub handshake :
      (s c : Session)
      → IsIdle s
      → IsIdle c
      → 20 ≤ s.m_maximum_packet_size
      → 18 ≤ c.m_maximum_packet_size
      → IsExactSessionOffer (Server.offer_of steady system s)
      → IsExactSessionAccept
          (Client.accept_of steady' system' (Server.offer_of steady system s) (tick c))
      → seconds (steady' c.clock - c.m_connection_time) ≤ connection_timeout
      → seconds (steady (suc (suc s.clock)) - steady s.clock) ≤ connection_timeout
      → (offer acceptance : List ℕ) × (s' c' s'' : Session) × (Server.on_connected steady system s
          ≡ s')
        × (s'.events ≡ s.events ++ (sent offer ∷ []))
        × (process_data (Client.handlers steady' system') offer c ≡ finished c')
        × (c'.events ≡ (c.events ++ (sent acceptance ∷ [])) ++ (established ∷ []))
        × (process_data (Server.handlers steady system) acceptance s' ≡ finished s'')
        × (c'.m_established ≡ true)
        × (s''.m_established ≡ true)
        × (c'.m_id ≡ s.m_id)
        × (s''.m_id ≡ s.m_id)
  unfolding Server.on_connected Server.establish Client.accept send_packet send_data
  handshake s c i j fits fits' exact exact' in_time in_time' = (
    _,
    _,
    _,
    _,
    _,
    refl,
    refl,
    client_offer steady' system' (Server.offer_of steady system s) c j exact fits' in_time,
    refl,
    server_accept steady system
        (Client.accept_of steady' system' (Server.offer_of steady system s) (tick c))
        (Server.on_connected steady system s)
        (record { between = still i.between; stream_is_good = i.stream_is_good }) exact' fits refl
        in_time',
    refl,
    refl,
    refl,
    refl,
  )
    where
      still : IsBetweenFrames s → IsBetweenFrames (Server.on_connected steady system s)
      still b = record { state_is = b.state_is; signal_is = b.signal_is; shift_is = b.shift_is }
