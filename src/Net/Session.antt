-- ===== src/Net/Session.antt =====
-- Session of protocol/net: the state of a session, what it sends, and the frames that it receives.
-- What the class hands to its environment or to its subclasses' callbacks is kept as a list of events.
-- A reading of a clock is a parameter: the n-th reading of a run has the index n.
use libki.Common.{
  ℕ, zero, suc, ◌+◌, ◌-◌, ◌*◌, ◌%◌, ◌^◌, List, [], ◌∷◌, ◌++◌, Bool, false, ltb, leb, ◌==◌,
  if◌then◌else◌, bit_or, length, take, drop,
}
use libki.Io
use libki.Io.{IoStream}
use libki.Dml.Bytes.{Try, done, raise, memory}
use libki.Control.{ProtocolError}
use libki.Net.Header
use libki.Net.Header.{PacketHeader}

pub data SessionCloseErrorCode : Type 0 where
  none application_error : SessionCloseErrorCode
  invalid_framing_start_signal invalid_framing_size_exceeds_maximum : SessionCloseErrorCode
  unhandled_control_message unhandled_application_message invalid_message : SessionCloseErrorCode
  session_offer_timed_out session_died : SessionCloseErrorCode

pub data ReceiveState : Type 0 where
  waiting_for_start_signal waiting_for_length waiting_for_packet : ReceiveState

-- `send_packet_data`, `close`, `on_invalid_packet`, `on_application_message` and `on_established`.
pub data Event : Type 0 where
  sent : List ℕ → Event
  closed : SessionCloseErrorCode → Event
  invalid_packet : Event
  application_message : PacketHeader → Event
  established : Event

pub record Session : Type 0 where
  pub m_id : ℕ
  pub m_established : Bool
  pub m_access_level : ℕ
  pub m_creation_time : ℕ
  pub m_connection_time : ℕ
  pub m_establish_time : ℕ
  pub m_last_received_heartbeat_time : ℕ
  pub m_last_sent_heartbeat_time : ℕ
  pub m_waiting_for_keep_alive_response : Bool
  pub m_latency : ℕ
  pub m_data_stream : IoStream
  pub m_maximum_packet_size : ℕ
  pub m_receive_state : ReceiveState
  pub m_start_signal : ℕ
  pub m_incoming_packet_size : ℕ
  pub m_shift : ℕ
  pub events : List Event
  pub clock : ℕ

abbrev pub start_signal : ℕ
start_signal = 0xf00d

abbrev pub default_maximum_receive_size : ℕ
default_maximum_receive_size = 0x2000

-- In seconds.
abbrev pub connection_timeout : ℕ
connection_timeout = 3

abbrev pub emit : Event → Session → Session
emit e s = record s { events = s.events ++ (e ∷ []) }

abbrev pub close : SessionCloseErrorCode → Session → Session
close code s = emit (closed code) s

-- The constructor; the time points that it leaves alone are the epoch of their clock.
unfoldable pub session : (ℕ → ℕ) → ℕ → Session
unfolding Io.empty
session steady id = record {
  m_id = id;
  m_established = false;
  m_access_level = 0;
  m_creation_time = steady 0;
  m_connection_time = 0;
  m_establish_time = 0;
  m_last_received_heartbeat_time = 0;
  m_last_sent_heartbeat_time = 0;
  m_waiting_for_keep_alive_response = false;
  m_latency = 0;
  m_data_stream = Io.empty;
  m_maximum_packet_size = default_maximum_receive_size;
  m_receive_state = waiting_for_start_signal;
  m_start_signal = 0;
  m_incoming_packet_size = 0;
  m_shift = 0;
  events = [];
  clock = 1;
}

unfoldable pub set_maximum_packet_size : ℕ → Session → Session
set_maximum_packet_size n s = record s { m_maximum_packet_size = n }

unfoldable pub set_access_level : ℕ → Session → Session
set_access_level n s = record s { m_access_level = n }

-- send_data: the frame's header holds the size in 16 bits.
unfoldable pub frame : List ℕ → List ℕ
unfolding memory
frame payload = memory 2 start_signal ++ (memory 2 (length payload) ++ payload)

unfoldable pub send_data : List ℕ → Session → Session
unfolding frame
send_data payload s = emit (sent (frame payload)) s

-- send_packet, for a message that writes the bytes `body`.
unfoldable pub send_packet : Bool → ℕ → List ℕ → Session → Session
unfolding send_data
send_packet is_control opcode body s =
    send_data (Header.write_to (record { m_control = is_control; m_opcode = opcode }) ++ body) s

-- The virtual handlers.
pub record Handlers : Type 0 where
  pub on_invalid_packet : Session → Session
  pub on_control_message : PacketHeader → Session → Session
  pub on_application_message : PacketHeader → Session → Session

-- How one turn of the loop of process_data ends: with data left to look at, or by `return`.
pub data Turn : Type 0 where
  again : List ℕ → Session → Turn
  leave : Session → Turn

abbrev pub shifted_in : ℕ → ℕ → ℕ → ℕ
shifted_in word byte shift = bit_or word (byte * 2 ^ shift) % 2 ^ 16

unfoldable pub receive_start : ℕ → List ℕ → Session → Turn
receive_start byte rest s =
    let s' = record s { m_start_signal = shifted_in s.m_start_signal byte s.m_shift } in
    if s.m_shift == 0
    then again rest (record s' { m_shift = 8 })
    else if s'.m_start_signal == start_signal
    then again rest (record s' {
      m_shift = 0;
      m_incoming_packet_size = 0;
      m_receive_state = waiting_for_length;
    })
    else leave (close invalid_framing_start_signal s')

unfoldable pub receive_length : ℕ → List ℕ → Session → Turn
unfolding Io.rewind_put Io.rewind_get
receive_length byte rest s =
    let size = shifted_in s.m_incoming_packet_size byte s.m_shift in
    let s' = record s { m_incoming_packet_size = size } in
    if s.m_shift == 0
    then again rest (record s' { m_shift = 8 })
    else if ltb s.m_maximum_packet_size size
    then leave (close invalid_framing_size_exceeds_maximum s')
    else again rest (record s' {
      m_data_stream = Io.rewind_get (Io.rewind_put s.m_data_stream);
      m_receive_state = waiting_for_packet;
    })

-- How process_data ends: `finished` when the data is used up, `returned` when it is left before.
pub data Processed : Type 0 where
  finished returned : Session → Processed
  stuck : Processed

module _ (h : Handlers) where
  open h use {on_invalid_packet, on_control_message, on_application_message}

  abbrev pub dispatch : Session → Try ProtocolError PacketHeader × IoStream → Session
  dispatch s (raise e, stream) = on_invalid_packet (record s { m_data_stream = stream })
  dispatch s (done header, stream) =
      if header.m_control
      then on_control_message header (record s { m_data_stream = stream })
      else on_application_message header (record s { m_data_stream = stream })

  unfoldable pub on_packet_available : Session → Session
  on_packet_available s = dispatch s (Header.read_from s.m_data_stream)

  -- What follows the last byte of a packet.
  abbrev pub packet_received : Session → Session
  packet_received s = record (on_packet_available s) {
    m_shift = 0;
    m_start_signal = 0;
    m_receive_state = waiting_for_start_signal;
  }

  unfoldable pub receive_packet : List ℕ → Session → Turn
  receive_packet input s =
      let available = length input in
      let read_size =
        if leb s.m_incoming_packet_size available then s.m_incoming_packet_size else available in
      let s' = record s {
        m_data_stream = Io.write (take read_size input) s.m_data_stream;
        m_incoming_packet_size = s.m_incoming_packet_size - read_size;
      } in
      again (drop read_size input)
        (if s'.m_incoming_packet_size == 0 then packet_received s' else s')

  unfoldable pub turn : ℕ → List ℕ → Session → Turn
  turn byte rest s = elim (s.m_receive_state) [
    | waiting_for_start_signal ↦ receive_start byte rest s
    | waiting_for_length ↦ receive_length byte rest s
    | waiting_for_packet ↦ receive_packet (byte ∷ rest) s
  ]

  unfoldable pub process : ℕ → List ℕ → Session → Processed
  process fuel [] s = finished s
  process zero (byte ∷ rest) s = stuck
  process (suc fuel) (byte ∷ rest) s = elim (turn byte rest s) [
    | again more s' ↦ process fuel more s'
    | leave s' ↦ returned s'
  ]

  -- Each turn takes a byte, but for one at the end of a packet.
  unfoldable pub process_data : List ℕ → Session → Processed
  process_data input s = process (2 * length input + 1) input s
