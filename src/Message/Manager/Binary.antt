-- ===== src/Message/Manager/Binary.antt =====
-- MessageManager::message_from_binary.
pub mod RoundTrip
use libki.Common.{ℕ, Option, none, some, ltb, if◌then◌else◌, get_elem?}
use libki.Dml.Bytes.{Reader, Try, done, raise, ◌>>=◌, return}
use libki.Dml.Record
use libki.Dml.Record.{DmlRecord}
use libki.Control.{
  ProtocolError, invalid_message_data, dml_invalid_service, dml_invalid_message_type, catch_as,
}
use libki.Message.Header.{MessageHeader, read_header}
use libki.Message.Template.{MessageTemplate}
use libki.Message.Body.{Message, message}
use libki.Message.Module.{MessageModule, template_of_type}
use libki.Message.Manager.{MessageManager, module_of_service, module_at}

-- message_from_binary behind the lookups.
abbrev pub filled_message : MessageTemplate → DmlRecord → Message
filled_message t r = record (message (some t)) { m_record = some r }

unfoldable pub read_message : MessageHeader → MessageTemplate → Reader ProtocolError Message
unfolding message
read_message header t =
    if ltb header.m_size (Record.get_size t.m_record)
    then (λ s. (raise dml_invalid_message_type, s))
    else (do
      r ← catch_as invalid_message_data (Record.read_from (Record.copy t.m_record))
      return (filled_message t r))

-- The template that a position in a module points to.
abbrev pub pointed : MessageModule → Option ℕ → Option MessageTemplate
pointed m none = none
pointed m (some p) = get_elem? m.m_templates p

-- message_from_binary behind the header.
abbrev pub by_template : MessageHeader → Option MessageTemplate → Reader ProtocolError Message
by_template header none s = (raise dml_invalid_message_type, s)
by_template header (some t) s = read_message header t s

abbrev pub by_module : MessageHeader → Option MessageModule → Reader ProtocolError Message
by_module header none s = (raise dml_invalid_service, s)
by_module header (some m) s = by_template header (pointed m (template_of_type header.m_type m)) s

unfoldable pub message_from_binary : MessageManager → Reader ProtocolError Message
unfolding read_header module_of_service template_of_type read_message
message_from_binary manager = do
  header ← read_header
  by_module header (module_at (module_of_service header.m_service_id manager) manager)
