-- ===== src/Examples/Fields.antt =====
-- dml and protocol/control at concrete inputs.
use libki.Common.{ℕ, ◌≡◌, ◌↔◌, ◌⊎◌, refl, arith, List, [], ◌∷◌, ◌++◌, true, false}
use libki.Io.{IoStream, of_string}
use libki.Io.Laws.{Offers, advance}
use libki.Dml.Bytes.{done, write_number, write_ushrt, write_int, value_of, char_eq}
use libki.Dml.Bytes.Laws.{first_byte, second_byte, third_byte, fourth_byte, write_int_exact}
use libki.Dml.Field
use libki.Dml.Field.{FieldType, FieldValue, type_of}
use libki.Dml.Field.RoundTrip.{read_from-write_to}
use libki.Dml.Record
use libki.Dml.Record.{DmlField, DmlRecord}
use libki.Dml.Record.RoundTrip.{SameRecordKind, record_read_from-write_to}
use libki.Common.{◌≢◌, some, none}
use Prim.Native.String.{String}
use libki.Dml.Record.{get_field, get_field_of, add_field, field_at, lookup}
use libki.Dml.Record.Lookup.{made, get_field_of-add_field}
use libki.Control.{
  SessionOffer, SessionAccept, ClientKeepAlive, ServerKeepAlive, write_offer, write_accept,
  write_client_keep_alive, write_server_keep_alive,
}
use libki.Message.Header.{MessageHeader, write_header}

-- 256 is written with its bytes reversed, which mean 65536.
write_int_exact_example :
    (value_of (write_int 256) ≡ 256)
    ↔ ((char_eq (first_byte 256) (fourth_byte 256) ≡ false) ⊎ (second_byte 256 ≡ third_byte 256))
write_int_exact_example = write_int_exact 256 (omega arith)

abbrev text : FieldValue
text = FieldValue.str (0x6b ∷ 0x69 ∷ [])

text_bytes :
    Offers (of_string (2 ∷ 0 ∷ 0x6b ∷ 0x69 ∷ 0x21 ∷ [])) (Field.write_to text ++ (0x21 ∷ []))
unfolding of_string Field.write_to write_number
text_bytes = record { is_good = refl; input_is = refl }

read_from-write_to_example :
    Field.read_from FieldType.str (of_string (2 ∷ 0 ∷ 0x6b ∷ 0x69 ∷ 0x21 ∷ []))
    ≡ (done text, advance 4 (of_string (2 ∷ 0 ∷ 0x6b ∷ 0x69 ∷ 0x21 ∷ [])))
unfolding Field.get_size
read_from-write_to_example =
    read_from-write_to text (of_string (2 ∷ 0 ∷ 0x6b ∷ 0x69 ∷ 0x21 ∷ [])) (0x21 ∷ []) (omega arith)
      text_bytes

abbrev blank_record : DmlRecord
blank_record = record {
  m_fields =
      record { m_name = "id"; m_transferable = true; m_value = FieldValue.ushrt 0 }
      ∷ record { m_name = "local"; m_transferable = false; m_value = FieldValue.int 5 }
      ∷ record { m_name = "text"; m_transferable = true; m_value = FieldValue.str [] }
      ∷ [];
  m_field_map = [];
}

abbrev sent_record : DmlRecord
sent_record = record {
  m_fields =
      record { m_name = "id"; m_transferable = true; m_value = FieldValue.ushrt 0x1234 }
      ∷ record { m_name = "local"; m_transferable = false; m_value = FieldValue.int 5 }
      ∷ record { m_name = "text"; m_transferable = true; m_value = text }
      ∷ [];
  m_field_map = [];
}

abbrev sent_bytes : List ℕ
sent_bytes = 0x34 ∷ 0x12 ∷ 2 ∷ 0 ∷ 0x6b ∷ 0x69 ∷ []

sent_bytes_offered : Offers (of_string sent_bytes) (Record.write_to sent_record ++ [])
unfolding of_string Record.write_to Record.write_fields Field.write_to write_ushrt write_number
sent_bytes_offered = record { is_good = refl; input_is = refl }

same_records : SameRecordKind blank_record sent_record
same_records = record {
  fields = (
    record { name = refl; transferable = refl; type = refl; value = λ e. cc },
    (
      record { name = refl; transferable = refl; type = refl; value = λ e. refl },
      (record { name = refl; transferable = refl; type = refl; value = λ e. cc }, tt),
    ),
  );
  field_map = refl;
}

record_read_from-write_to_example :
    Record.read_from blank_record (of_string sent_bytes)
    ≡ (done sent_record, advance 6 (of_string sent_bytes))
unfolding Record.get_size Record.size_fields Field.get_size
record_read_from-write_to_example =
    record_read_from-write_to blank_record sent_record (of_string sent_bytes) [] same_records
      (λ e. omega arith, (λ e. cc, (λ e. omega arith, tt))) sent_bytes_offered

abbrev offer : SessionOffer
offer = record { m_session_id = 0x1234; m_timestamp = 0x5bf0_c001; m_milliseconds = 500 }

abbrev offer_stream : IoStream
offer_stream = of_string (write_offer offer ++ [])

offered : Offers offer_stream (write_offer offer ++ [])
unfolding of_string
offered = record { is_good = refl; input_is = refl }

abbrev accept : SessionAccept
accept = record { m_session_id = 0x1234; m_timestamp = 0x5bf0_c001; m_milliseconds = 500 }

abbrev accept_stream : IoStream
accept_stream = of_string (write_accept accept ++ [])

accept_offered : Offers accept_stream (write_accept accept ++ [])
unfolding of_string
accept_offered = record { is_good = refl; input_is = refl }

abbrev client_message : ClientKeepAlive
client_message = record { m_session_id = 0x1234; m_milliseconds = 500; m_minutes = 7 }

abbrev client_stream : IoStream
client_stream = of_string (write_client_keep_alive client_message ++ [])

client_offered : Offers client_stream (write_client_keep_alive client_message ++ [])
unfolding of_string
client_offered = record { is_good = refl; input_is = refl }

abbrev server_message : ServerKeepAlive
server_message = record { m_timestamp = 500 }

abbrev server_stream : IoStream
server_stream = of_string (write_server_keep_alive server_message ++ [])

server_offered : Offers server_stream (write_server_keep_alive server_message ++ [])
unfolding of_string
server_offered = record { is_good = refl; input_is = refl }

get_field_of-add_field_example :
    (get_field_of FieldType.uint "count" (add_field FieldType.uint "count" true sent_record).1
      ≡ some 3)
    × (field_at 3 (add_field FieldType.uint "count" true sent_record).1
        ≡ some (made FieldType.uint "count" true))
    × ((other : String)
        → "count" ≢ other
        → get_field other (add_field FieldType.uint "count" true sent_record).1
          ≡ get_field other sent_record)
unfolding get_field lookup
get_field_of-add_field_example =
    get_field_of-add_field FieldType.uint "count" true sent_record nothing_yet
  where
    nothing_yet : get_field "count" sent_record ≡ none
    nothing_yet = refl

-- A size whose sum with the header's own does not fit.
abbrev message_header : MessageHeader
message_header = record { m_service_id = 5; m_type = 7; m_size = 65534 }

abbrev message_stream : IoStream
message_stream = of_string (write_header message_header ++ [])

message_offered : Offers message_stream (write_header message_header ++ [])
unfolding of_string
message_offered = record { is_good = refl; input_is = refl }
