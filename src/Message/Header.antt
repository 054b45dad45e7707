-- ===== src/Message/Header.antt =====
-- MessageHeader of protocol/dml: the size on the wire counts the header's own four bytes.
use libki.Common.{ℕ, ◌+◌, ◌-◌, ◌%◌, ◌^◌, ◌<◌, ◌≡◌, refl, ap, ◌∙◌, arith, List, ◌++◌}
use libki.Io.{IoStream}
use libki.Io.Laws.{Offers, advance}
use libki.Dml.Bytes.{Reader, done, bind_done, ◌>>=◌, return}
use libki.Dml.Field
use libki.Dml.Field.{FieldType, FieldValue}
use libki.Dml.Record
use libki.Dml.Record.{DmlRecord}
use libki.Control.{ProtocolError, invalid_header_data, catch_as, blank, filled, number_at}
use libki.Control.RoundTrip.{message_lem, transferred}

pub record MessageHeader : Type 0 where
  pub m_service_id : ℕ
  pub m_type : ℕ
  pub m_size : ℕ

-- The record that write_to makes, and the one that read_from reads into.
unfoldable pub header_record : MessageHeader → DmlRecord
unfolding Record.empty filled
header_record m = filled FieldType.ushrt "m_size" (FieldValue.ushrt ((m.m_size + 4) % 2 ^ 16)) (
    filled FieldType.ubyt "m_type" (FieldValue.ubyt m.m_type)
      (filled FieldType.ubyt "m_service_id" (FieldValue.ubyt m.m_service_id) Record.empty))

unfoldable pub header_template : DmlRecord
unfolding Record.empty blank
header_template =
    blank FieldType.ushrt "m_size"
      (blank FieldType.ubyt "m_type" (blank FieldType.ubyt "m_service_id" Record.empty))

unfoldable pub write_header : MessageHeader → List ℕ
write_header m = Record.write_to (header_record m)

unfoldable pub read_header : Reader ProtocolError MessageHeader
read_header = do
  r ← catch_as invalid_header_data (Record.read_from header_template)
  return (record {
    m_service_id = number_at 0 r;
    m_type = number_at 1 r;
    m_size = (number_at 2 r + 2 ^ 16 - 4) % 2 ^ 16;
  })

-- A DML message header with a service and a type below 2 ^ 8 and a size below 2 ^ 16, also one
-- whose sum with the header's own four bytes wraps around, is read back from a stream that offers
-- what it writes, which leaves the stream 4 bytes further.
pub read_header-write_header :
    (m : MessageHeader) (s : IoStream) (rest : List ℕ)
    → m.m_service_id < 2 ^ 8
    → m.m_type < 2 ^ 8
    → m.m_size < 2 ^ 16
    → Offers s (write_header m ++ rest)
    → read_header s ≡ (done m, advance 4 s)
unfolding read_header write_header header_record header_template Record.get_size Record.size_fields
    Field.get_size
read_header-write_header m s rest p q r o =
    bind_done (catch_as invalid_header_data (Record.read_from header_template)) _ s (advance 4 s)
      (header_record m)
      (message_lem header_template (header_record m) invalid_header_data s rest
        (record {
          fields = (
            transferred "m_service_id" (FieldValue.ubyt 0) (FieldValue.ubyt m.m_service_id) refl,
            (
              transferred "m_type" (FieldValue.ubyt 0) (FieldValue.ubyt m.m_type) refl,
              (
                transferred "m_size" (FieldValue.ushrt 0)
                    (FieldValue.ushrt ((m.m_size + 4) % 2 ^ 16)) refl,
                tt,
              ),
            ),
          );
          field_map = refl;
        })
        (λ e. p, (λ e. q, (λ e. omega arith, tt))) o)
    ∙ ap (λ n. (done (record m { m_size = n }), advance 4 s)) back
  where
    back : ((m.m_size + 4) % 2 ^ 16 + 2 ^ 16 - 4) % 2 ^ 16 ≡ m.m_size
    back = omega arith
