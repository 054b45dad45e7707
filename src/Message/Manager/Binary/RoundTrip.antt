-- ===== src/Message/Manager/Binary/RoundTrip.antt =====
-- A message that one end writes, the other end's manager reads.
use libki.Common.{
  ℕ, ◌+◌, ◌%◌, ◌^◌, ◌<◌, ◌≤◌, ◌≡◌, ap, ◌∙◌, arith, List, ◌++◌, append_assoc, some, ltb, false,
  get_elem?,
}
use libki.Io.{IoStream}
use libki.Io.Laws.{Offers, advance, advance-Offers}
use libki.Dml.Bytes.{done, bind_done}
use libki.Dml.Field.RoundTrip.{advance-advance}
use libki.Dml.Record
use libki.Dml.Record.{DmlRecord}
use libki.Dml.Record.RoundTrip.{SameRecordKind, AllExact}
use libki.Control.{invalid_message_data, catch_as}
use libki.Control.RoundTrip.{message_lem}
use libki.Message.Header.{write_header, read_header, read_header-write_header}
use libki.Message.Template.{MessageTemplate}
use libki.Message.Body.{write_to}
use libki.Message.Body.RoundTrip.{length-write_header, header_for}
use libki.Message.Module.{MessageModule, template_of_type}
use libki.Message.Manager.{MessageManager, module_of_service, module_at}
use libki.Message.Manager.Binary.{
  filled_message, read_message, by_module, by_template, pointed, message_from_binary,
}

-- The manager has the template under the message's service and type.
abbrev pub Finds : MessageManager → ℕ → ℕ → MessageTemplate → Type 0
Finds manager service_id type t =
    (m : MessageModule) × (p : ℕ) × (module_at (module_of_service service_id manager) manager
      ≡ some m)
    × (template_of_type type m ≡ some p)
    × (get_elem? m.m_templates p ≡ some t)

-- Let a manager have a template under its service id and type, both below 2 ^ 8, and let a record
-- have the fields of the template's up to the values of transferable ones, values that are
-- written exactly, and a size below 2 ^ 16 that is at least that of the template's record:
-- message_from_binary on a stream that offers what the message of template and record writes
-- gives this message, and leaves the stream four bytes and the record's size further.
pub message_from_binary-write_to :
    (manager : MessageManager) (t : MessageTemplate) (r : DmlRecord) (s : IoStream) (rest : List ℕ)
    → Finds manager t.m_service_id t.m_type t
    → t.m_service_id < 2 ^ 8
    → t.m_type < 2 ^ 8
    → SameRecordKind (Record.copy t.m_record) r
    → AllExact r.m_fields
    → Record.get_size t.m_record ≤ Record.get_size r
    → Record.get_size r < 2 ^ 16
    → Offers s (write_to (filled_message t r) ++ rest)
    → message_from_binary manager s ≡ (done (filled_message t r), advance (4 + Record.get_size r) s)
unfolding message_from_binary write_to read_message
message_from_binary-write_to manager t r s rest (m, p, e₁, e₂, e₃) sid tid same exact enough small
      o =
    bind_done read_header _ s (advance 4 s) (header_for t r) (
      read_header-write_header (header_for t r) s (Record.write_to r ++ rest) sid tid (omega arith)
        o')
    ∙ ap (λ x. by_module (header_for t r) x (advance 4 s)) e₁
    ∙ ap (λ x. by_template (header_for t r) x (advance 4 s)) found
    ∙ rw (read_message, fits)
        (bind_done (catch_as invalid_message_data (Record.read_from (Record.copy t.m_record))) _
            (advance 4 s) (advance (Record.get_size r) (advance 4 s)) r
            (message_lem (Record.copy t.m_record) r invalid_message_data (advance 4 s) rest same
              exact
              (rw (length-write_header (header_for t r) sid tid) at
                (advance-Offers s (write_header (header_for t r)) (Record.write_to r ++ rest) o')))
          ∙ ap (λ s'. (done (filled_message t r), s')) (advance-advance 4 (Record.get_size r) s))
  where
    o' : Offers s (write_header (header_for t r) ++ (Record.write_to r ++ rest))
    o' = rw (append_assoc (write_header (header_for t r)) (Record.write_to r) rest) at o

    found : pointed m (template_of_type t.m_type m) ≡ some t
    found = ap (pointed m) e₂ ∙ e₃

    fits : ltb (Record.get_size r % 2 ^ 16) (Record.get_size t.m_record) ≡ false
    fits = ground arith
