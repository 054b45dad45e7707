-- ===== src/Net/DmlSession.antt =====
-- DMLSession of protocol/net: messages in the application packets of a session.
-- What a subclass does with a message, and the rest of the session's handlers, are parameters.
pub mod Delivery
use libki.Common.{ℕ, List, Bool, false, leb, if◌then◌else◌}
use libki.Io.{IoStream}
use libki.Dml.Bytes.{Try, done, raise}
use libki.Control.{
  ProtocolError, invalid_header_data, insufficient_message_data, invalid_message_data,
  dml_invalid_service, dml_invalid_message_type,
}
use libki.Message.Body
use libki.Message.Body.{Message}
use libki.Message.Manager.{MessageManager}
use libki.Message.Manager.Binary.{message_from_binary}
use libki.Net.Header.{PacketHeader}
use libki.Net.Session.{Session, Handlers, send_packet}

pub data InvalidDmlMessageErrorCode : Type 0 where
  none unknown : InvalidDmlMessageErrorCode
  invalid_header invalid_message : InvalidDmlMessageErrorCode
  invalid_service invalid_message_type insufficient_access : InvalidDmlMessageErrorCode

-- The error code by the exception.
unfoldable pub error_code : ProtocolError → InvalidDmlMessageErrorCode
error_code invalid_header_data = invalid_header
error_code insufficient_message_data = invalid_message
error_code invalid_message_data = invalid_message
error_code dml_invalid_service = invalid_service
error_code dml_invalid_message_type = invalid_message_type
error_code _ = unknown

unfoldable pub send_message : Message → Session → Session
unfolding send_packet Body.write_to
send_message m s = send_packet false 0 (Body.write_to m) s

-- The virtual handlers that DMLSession adds.
pub record DmlHandlers : Type 0 where
  pub on_message : Message → Session → Session
  pub on_invalid_message : InvalidDmlMessageErrorCode → Session → Session

module _ (manager : MessageManager) (d : DmlHandlers) where
  -- What follows a message that could be read.
  unfoldable pub message_read : Message → Session → Session
  unfolding Body.get_access_level
  message_read m s =
      if leb (Body.get_access_level m) s.m_access_level
      then d.on_message m s
      else d.on_invalid_message insufficient_access s

  abbrev pub read_result : Session → Try ProtocolError Message × IoStream → Session
  read_result s (raise e, stream) =
      d.on_invalid_message (error_code e) (record s { m_data_stream = stream })
  read_result s (done m, stream) = message_read m (record s { m_data_stream = stream })

  unfoldable pub on_application_message : PacketHeader → Session → Session
  unfolding message_from_binary message_read error_code
  on_application_message header s = read_result s (message_from_binary manager s.m_data_stream)

  -- A session class with this handler of application packets.
  abbrev pub with_messages : Handlers → Handlers
  with_messages h = record h { on_application_message = on_application_message }
