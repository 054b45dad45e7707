-- ===== src/Message/Body.antt =====
-- Message of protocol/dml: a record by a template, or raw bytes behind a header.
pub mod RoundTrip
use libki.Common.{
  ℕ, ◌+◌, ◌%◌, ◌^◌, List, [], ◌∷◌, ◌++◌, Option, none, some, Bool, true, false, ◌==◌, if◌then◌else◌,
  length, drop,
}
use Prim.Native.String.{String}
use libki.Common.Result.{Result, ok, throw, fault}
use libki.Io
use libki.Io.{IoStream}
use libki.Dml.Bytes.{Try, done, raise, DmlError}
use libki.Dml.Record
use libki.Dml.Record.{DmlRecord}
use libki.Buffer.{resize}
use libki.Control.{
  ProtocolError, insufficient_message_data, invalid_message_data, dml_invalid_service,
  dml_invalid_message_type, dml_exception,
}
use libki.Map.Names.{Name}
use libki.Message.Header.{MessageHeader, write_header, read_header}
use libki.Message.Template
use libki.Message.Template.{MessageTemplate}

pub record Message : Type 0 where
  pub m_template : Option MessageTemplate
  pub m_record : Option DmlRecord
  pub m_header : MessageHeader
  pub m_raw_data : List ℕ

-- The constructor; `none` is the null pointer.
unfoldable pub message : Option MessageTemplate → Message
message t = record {
  m_template = t;
  m_record = elim t [ none ↦ none | some u ↦ some (Record.copy u.m_record) ];
  m_header = record { m_service_id = 0; m_type = 0; m_size = 0 };
  m_raw_data = [];
}

-- MessageTemplate::create_message.
unfoldable pub create_message : MessageTemplate → Message
unfolding message
create_message t = message (some t)

-- What set_template does with what it could make of the raw data.
abbrev with_payload :
    Message → Try DmlError DmlRecord × IoStream → Result ProtocolError (Unit {0}) × Message
with_payload m (done r, s) = (ok tt, record m { m_record = some r; m_raw_data = [] })
with_payload m (raise e, s) =
    (throw invalid_message_data, record m { m_template = none; m_record = none })

unfoldable pub set_template :
    Option MessageTemplate → Message → Result ProtocolError (Unit {0}) × Message
set_template none m = (ok tt, record m { m_template = none })
set_template (some t) m =
    let blank = Record.copy t.m_record in
    let m' = record m { m_template = some t; m_record = some blank } in
    if length m.m_raw_data == 0
    then (ok tt, m')
    else with_payload m' (Record.read_from blank (Io.of_string m.m_raw_data))

unfoldable pub get_service_id : Message → ℕ
get_service_id m = elim (m.m_template) [ none ↦ m.m_header.m_service_id | some t ↦ t.m_service_id ]

unfoldable pub get_type : Message → ℕ
get_type m = elim (m.m_template) [ none ↦ m.m_header.m_type | some t ↦ t.m_type ]

unfoldable pub get_message_size : Message → ℕ
get_message_size m =
    elim (m.m_record) [ none ↦ length m.m_raw_data | some r ↦ Record.get_size r ] % 2 ^ 16

unfoldable pub get_handler : Message → Name
get_handler m = elim (m.m_template) [ none ↦ [] | some t ↦ Template.get_handler t ]

unfoldable pub get_access_level : Message → ℕ
get_access_level m = elim (m.m_template) [ none ↦ 0 | some t ↦ Template.get_access_level t ]

unfoldable pub get_field : String → Message → Option ℕ
get_field name m = elim (m.m_record) [ none ↦ none | some r ↦ Record.get_field name r ]

unfoldable pub header_of : Message → MessageHeader
unfolding get_service_id get_type get_message_size
header_of m = elim (m.m_template) [
  | none ↦ m.m_header
  | some t ↦ record {
    m_service_id = get_service_id m;
    m_type = get_type m;
    m_size = get_message_size m;
  }
]

unfoldable pub write_to : Message → List ℕ
unfolding header_of write_header
write_to m =
    write_header (header_of m)
    ++ elim (m.m_record) [ none ↦ m.m_raw_data | some r ↦ Record.write_to r ]

-- How read_from ends: its result, the message, and the stream behind it.
abbrev pub Outcome : Type 0
Outcome = Result ProtocolError (Unit {0}) × Message × IoStream

abbrev record_read : Message → Try DmlError DmlRecord × IoStream → Outcome
record_read m (done r, s) = (ok tt, record m { m_record = some r }, s)
record_read m (raise e, s) = (throw dml_exception, m, s)

-- `resize` keeps the bytes of an earlier message, and `read` writes over them.
abbrev raw_read : Message → List ℕ × IoStream → Outcome
raw_read m (bytes, s) =
    let room = resize m.m_header.m_size m.m_raw_data in
    (
      if s.fail then throw insufficient_message_data else ok tt,
      record m { m_raw_data = bytes ++ drop (length bytes) room },
      s,
    )

-- read_from behind the header.
unfoldable pub read_payload : Message → IoStream → Outcome
read_payload m s = elim (m.m_template) [
  | none ↦ raw_read m (Io.read m.m_header.m_size s)
  | some t ↦
      if m.m_header.m_service_id == t.m_service_id
      then (if m.m_header.m_type == t.m_type
          then elim (m.m_record) [
            | none ↦ (fault, m, s)
            | some r ↦ record_read m (Record.read_from r s)
          ]
          else (throw dml_invalid_message_type, m, s))
      else (throw dml_invalid_service, m, s)
]

abbrev header_then : Message → Try ProtocolError MessageHeader × IoStream → Outcome
unfolding read_payload
header_then m (raise e, s) = (throw e, m, s)
header_then m (done h, s) = read_payload (record m { m_header = h }) s

unfoldable pub read_from : Message → IoStream → Outcome
unfolding header_then
read_from m s = header_then m (read_header s)

unfoldable pub get_size : Message → ℕ
get_size m = elim (m.m_record) [ none ↦ 4 + length m.m_raw_data | some r ↦ 4 + Record.get_size r ]
