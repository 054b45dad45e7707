-- ===== src/Control.antt =====
-- The control messages of protocol/control, and the exceptions and opcodes of the protocol.
-- A message is written and read through a dml::Record that is made for the purpose; a timestamp is an
-- int32_t, kept as the number with the same bytes.
pub mod RoundTrip
use libki.Common.{
  ℕ, zero, suc, ◌+◌, List, [], ◌∷◌, Option, none, some, Bool, true, false, get_elem?,
}
use Prim.Native.String.{String}
use libki.Io.{IoStream}
use libki.Dml.Bytes.{Reader, Try, done, raise, DmlError, ◌>>=◌, return}
use libki.Dml.Field.{FieldType, FieldValue}
use libki.Dml.Record
use libki.Dml.Record.{DmlField, DmlRecord}

-- protocol::parse_error and protocol::value_error with their codes, and an exception of dml that is
-- let through.
pub data ProtocolError : Type 0 where
  invalid_xml_data invalid_header_data insufficient_message_data invalid_message_data :
      ProtocolError
  value_none missing_file overwrites_lookup exceeds_limit : ProtocolError
  dml_invalid_service dml_invalid_protocol_type : ProtocolError
  dml_invalid_message_type dml_invalid_message_name : ProtocolError
  dml_exception : ProtocolError

abbrev pub none_opcode : ℕ
none_opcode = 0

abbrev pub session_offer_opcode : ℕ
session_offer_opcode = 0

abbrev pub udp_hello_opcode : ℕ
udp_hello_opcode = 1

abbrev pub keep_alive_opcode : ℕ
keep_alive_opcode = 3

abbrev pub keep_alive_rsp_opcode : ℕ
keep_alive_rsp_opcode = 4

abbrev pub session_accept_opcode : ℕ
session_accept_opcode = 5

-- `catch (dml::parse_error &e) { throw parse_error(…, code); }`
abbrev pub renamed :
    {A : Type 0} → ProtocolError → Try DmlError A × IoStream → Try ProtocolError A × IoStream
renamed code (done a, s) = (done a, s)
renamed code (raise e, s) = (raise code, s)

abbrev pub catch_as : {A : Type 0} → ProtocolError → Reader DmlError A → Reader ProtocolError A
catch_as code m s = renamed code (m s)

-- `record.add_field<T>(name)`, and with `->set_value(v)` behind it.
unfoldable pub blank : FieldType → String → DmlRecord → DmlRecord
unfolding Record.add_field Record.push_field Record.lookup Record.insert
blank t name r = (Record.add_field t name true r).1

unfoldable pub filled : FieldType → String → FieldValue → DmlRecord → DmlRecord
unfolding Record.add_field Record.push_field Record.lookup Record.insert Record.set_value
filled t name v r =
    let (p, r') = Record.add_field t name true r in
    elim p [ none ↦ r' | some i ↦ Record.set_value i v r' ]

-- `get_value()` through the pointer to a numeric field.
abbrev pub number_of : FieldValue → ℕ
number_of (FieldValue.ushrt v) = v
number_of (FieldValue.int v) = v
number_of (FieldValue.uint v) = v
number_of (FieldValue.ubyt v) = v
number_of _ = 0

abbrev pub number_at : ℕ → DmlRecord → ℕ
number_at p r = elim (get_elem? r.m_fields p) [ none ↦ 0 | some f ↦ number_of f.m_value ]

-- The session's id, and the time in seconds and the milliseconds of the current second.
pub record SessionOffer : Type 0 where
  pub m_session_id : ℕ
  pub m_timestamp : ℕ
  pub m_milliseconds : ℕ

pub record SessionAccept : Type 0 where
  pub m_session_id : ℕ
  pub m_timestamp : ℕ
  pub m_milliseconds : ℕ

pub record ClientKeepAlive : Type 0 where
  pub m_session_id : ℕ
  pub m_milliseconds : ℕ
  pub m_minutes : ℕ

pub record ServerKeepAlive : Type 0 where
  pub m_timestamp : ℕ

-- The record that SessionOffer::write_to makes, and the one that read_from reads into.
unfoldable pub offer_record : SessionOffer → DmlRecord
unfolding Record.empty blank filled
offer_record m = filled FieldType.uint "m_milliseconds" (FieldValue.uint m.m_milliseconds) (
    filled FieldType.int "m_timestamp" (FieldValue.int m.m_timestamp) (
      blank FieldType.uint "unknown"
        (filled FieldType.ushrt "m_session_id" (FieldValue.ushrt m.m_session_id) Record.empty)))

unfoldable pub offer_template : DmlRecord
unfolding Record.empty blank
offer_template = blank FieldType.uint "m_milliseconds" (
    blank FieldType.int "m_timestamp"
      (blank FieldType.uint "unknown" (blank FieldType.ushrt "m_session_id" Record.empty)))

unfoldable pub write_offer : SessionOffer → List ℕ
write_offer m = Record.write_to (offer_record m)

unfoldable pub read_offer : Reader ProtocolError SessionOffer
read_offer = do
  r ← catch_as invalid_message_data (Record.read_from offer_template)
  return (record {
    m_session_id = number_at 0 r;
    m_timestamp = number_at 2 r;
    m_milliseconds = number_at 3 r;
  })

unfoldable pub accept_record : SessionAccept → DmlRecord
unfolding Record.empty blank filled
accept_record m = filled FieldType.ushrt "m_session_id" (FieldValue.ushrt m.m_session_id) (
    filled FieldType.uint "m_milliseconds" (FieldValue.uint m.m_milliseconds) (
      filled FieldType.int "m_timestamp" (FieldValue.int m.m_timestamp)
        (blank FieldType.uint "unknown2" (blank FieldType.ushrt "unknown" Record.empty))))

unfoldable pub accept_template : DmlRecord
unfolding Record.empty blank
accept_template = blank FieldType.ushrt "m_session_id" (
    blank FieldType.uint "m_milliseconds" (
      blank FieldType.int "m_timestamp"
        (blank FieldType.uint "unknown2" (blank FieldType.ushrt "unknown" Record.empty))))

unfoldable pub write_accept : SessionAccept → List ℕ
write_accept m = Record.write_to (accept_record m)

unfoldable pub read_accept : Reader ProtocolError SessionAccept
read_accept = do
  r ← catch_as invalid_message_data (Record.read_from accept_template)
  return (record {
    m_session_id = number_at 4 r;
    m_timestamp = number_at 2 r;
    m_milliseconds = number_at 3 r;
  })

unfoldable pub client_keep_alive_record : ClientKeepAlive → DmlRecord
unfolding Record.empty filled
client_keep_alive_record m = filled FieldType.ushrt "m_minutes" (FieldValue.ushrt m.m_minutes) (
    filled FieldType.ushrt "m_milliseconds" (FieldValue.ushrt m.m_milliseconds)
      (filled FieldType.ushrt "m_session_id" (FieldValue.ushrt m.m_session_id) Record.empty))

unfoldable pub client_keep_alive_template : DmlRecord
unfolding Record.empty blank
client_keep_alive_template =
    blank FieldType.ushrt "m_minutes"
      (blank FieldType.ushrt "m_milliseconds" (blank FieldType.ushrt "m_session_id" Record.empty))

unfoldable pub write_client_keep_alive : ClientKeepAlive → List ℕ
write_client_keep_alive m = Record.write_to (client_keep_alive_record m)

unfoldable pub read_client_keep_alive : Reader ProtocolError ClientKeepAlive
read_client_keep_alive = do
  r ← catch_as invalid_message_data (Record.read_from client_keep_alive_template)
  return (record {
    m_session_id = number_at 0 r;
    m_milliseconds = number_at 1 r;
    m_minutes = number_at 2 r;
  })

unfoldable pub server_keep_alive_record : ServerKeepAlive → DmlRecord
unfolding Record.empty blank filled
server_keep_alive_record m =
    filled FieldType.int "m_timestamp" (FieldValue.int m.m_timestamp)
      (blank FieldType.ushrt "m_session_id" Record.empty)

unfoldable pub server_keep_alive_template : DmlRecord
unfolding Record.empty blank
server_keep_alive_template =
    blank FieldType.int "m_timestamp" (blank FieldType.ushrt "m_session_id" Record.empty)

unfoldable pub write_server_keep_alive : ServerKeepAlive → List ℕ
write_server_keep_alive m = Record.write_to (server_keep_alive_record m)

unfoldable pub read_server_keep_alive : Reader ProtocolError ServerKeepAlive
read_server_keep_alive = do
  r ← catch_as invalid_message_data (Record.read_from server_keep_alive_template)
  return (record { m_timestamp = number_at 1 r })
