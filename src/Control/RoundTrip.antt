-- ===== src/Control/RoundTrip.antt =====
-- Each control message reads back from what it writes.
use libki.Common.{ℕ, ◌≡◌, inr, refl, ap, arith, List, ◌++◌, true}
use libki.Io.{IoStream}
use libki.Io.Laws.{Offers, advance}
use libki.Dml.Bytes.{done, bind_done}
use libki.Dml.Field.{FieldValue, type_of}
use libki.Dml.Field.RoundTrip.{IsExact}
use libki.Dml.Record.{DmlRecord, get_size, write_to, read_from}
use libki.Dml.Record.RoundTrip.{SameKind, AllExact, SameRecordKind, record_read_from-write_to}
use libki.Dml.Field
use libki.Dml.Record.{size_fields}
use Prim.Native.String.{String}
use libki.Control.{
  ProtocolError, invalid_message_data, catch_as, renamed, SessionOffer, SessionAccept,
  ClientKeepAlive, ServerKeepAlive, offer_record, offer_template, write_offer, read_offer,
  accept_record, accept_template, write_accept, read_accept, client_keep_alive_record,
  client_keep_alive_template, write_client_keep_alive, read_client_keep_alive,
  server_keep_alive_record, server_keep_alive_template, write_server_keep_alive,
  read_server_keep_alive,
}

-- Reading a record for a message.
pub message_lem :
    (t r : DmlRecord) (code : ProtocolError) (s : IoStream) (rest : List ℕ)
    → SameRecordKind t r
    → AllExact r.m_fields
    → Offers s (write_to r ++ rest)
    → catch_as code (read_from t) s ≡ (done r, advance (get_size r) s)
message_lem t r code s rest same exact o =
    ap (renamed code) (record_read_from-write_to t r s rest same exact o)

-- A transferable field and the same with another value of its type.
pub transferred :
    (name : String) (a b : FieldValue)
    → type_of a ≡ type_of b
    → SameKind
        (record { m_name = name; m_transferable = true; m_value = a })
        (record { m_name = name; m_transferable = true; m_value = b })
transferred name a b e = record { name = refl; transferable = refl; type = e; value = λ f. cc }

pub zero-IsExact : IsExact (FieldValue.uint 0)
zero-IsExact = (omega arith, inr refl)

abbrev pub IsExactSessionOffer : SessionOffer → Type 0
IsExactSessionOffer m =
    IsExact (FieldValue.ushrt m.m_session_id)
    × IsExact (FieldValue.int m.m_timestamp)
    × IsExact (FieldValue.uint m.m_milliseconds)

-- A SESSION_OFFER whose fields fit and are written with their bytes in order is read back whole
-- from a stream that offers what it writes, which leaves the stream 14 bytes further.
pub read_offer-write_offer :
    (m : SessionOffer) (s : IoStream) (rest : List ℕ)
    → IsExactSessionOffer m
    → Offers s (write_offer m ++ rest)
    → read_offer s ≡ (done m, advance 14 s)
unfolding read_offer write_offer offer_record offer_template get_size size_fields Field.get_size
read_offer-write_offer m s rest h o =
    bind_done (catch_as invalid_message_data (read_from offer_template)) _ s (advance 14 s)
      (offer_record m)
      (message_lem offer_template (offer_record m) invalid_message_data s rest
        (record {
          fields = (
            transferred "m_session_id" (FieldValue.ushrt 0) (FieldValue.ushrt m.m_session_id) refl,
            (
              transferred "unknown" (FieldValue.uint 0) (FieldValue.uint 0) refl,
              (
                transferred "m_timestamp" (FieldValue.int 0) (FieldValue.int m.m_timestamp) refl,
                (
                  transferred "m_milliseconds" (FieldValue.uint 0)
                      (FieldValue.uint m.m_milliseconds) refl,
                  tt,
                ),
              ),
            ),
          );
          field_map = refl;
        })
        (λ e. h.0, (λ e. zero-IsExact, (λ e. h.1, (λ e. h.2, tt)))) o)

abbrev pub IsExactSessionAccept : SessionAccept → Type 0
IsExactSessionAccept m =
    IsExact (FieldValue.ushrt m.m_session_id)
    × IsExact (FieldValue.int m.m_timestamp)
    × IsExact (FieldValue.uint m.m_milliseconds)

-- A SESSION_ACCEPT whose fields fit and are written with their bytes in order is read back whole
-- from a stream that offers what it writes, which leaves the stream 16 bytes further.
pub read_accept-write_accept :
    (m : SessionAccept) (s : IoStream) (rest : List ℕ)
    → IsExactSessionAccept m
    → Offers s (write_accept m ++ rest)
    → read_accept s ≡ (done m, advance 16 s)
unfolding read_accept write_accept accept_record accept_template get_size size_fields Field.get_size
read_accept-write_accept m s rest h o =
    bind_done (catch_as invalid_message_data (read_from accept_template)) _ s (advance 16 s)
      (accept_record m)
      (message_lem accept_template (accept_record m) invalid_message_data s rest
        (record {
          fields = (
            transferred "unknown" (FieldValue.ushrt 0) (FieldValue.ushrt 0) refl,
            (
              transferred "unknown2" (FieldValue.uint 0) (FieldValue.uint 0) refl,
              (
                transferred "m_timestamp" (FieldValue.int 0) (FieldValue.int m.m_timestamp) refl,
                (
                  transferred "m_milliseconds" (FieldValue.uint 0)
                      (FieldValue.uint m.m_milliseconds) refl,
                  (
                    transferred "m_session_id" (FieldValue.ushrt 0)
                        (FieldValue.ushrt m.m_session_id) refl,
                    tt,
                  ),
                ),
              ),
            ),
          );
          field_map = refl;
        })
        (λ e. omega arith, (λ e. zero-IsExact, (λ e. h.1, (λ e. h.2, (λ e. h.0, tt))))) o)

abbrev pub IsExactClientKeepAlive : ClientKeepAlive → Type 0
IsExactClientKeepAlive m =
    IsExact (FieldValue.ushrt m.m_session_id)
    × IsExact (FieldValue.ushrt m.m_milliseconds)
    × IsExact (FieldValue.ushrt m.m_minutes)

-- A KEEP_ALIVE of the client whose three fields are below 2 ^ 16 is read back whole from a stream
-- that offers what it writes, which leaves the stream 6 bytes further.
pub read_client_keep_alive-write_client_keep_alive :
    (m : ClientKeepAlive) (s : IoStream) (rest : List ℕ)
    → IsExactClientKeepAlive m
    → Offers s (write_client_keep_alive m ++ rest)
    → read_client_keep_alive s ≡ (done m, advance 6 s)
unfolding read_client_keep_alive write_client_keep_alive client_keep_alive_record
    client_keep_alive_template get_size size_fields Field.get_size
read_client_keep_alive-write_client_keep_alive m s rest h o =
    bind_done (catch_as invalid_message_data (read_from client_keep_alive_template)) _ s
      (advance 6 s) (client_keep_alive_record m)
      (message_lem client_keep_alive_template (client_keep_alive_record m) invalid_message_data s
        rest
        (record {
          fields = (
            transferred "m_session_id" (FieldValue.ushrt 0) (FieldValue.ushrt m.m_session_id) refl,
            (
              transferred "m_milliseconds" (FieldValue.ushrt 0) (FieldValue.ushrt m.m_milliseconds)
                  refl,
              (
                transferred "m_minutes" (FieldValue.ushrt 0) (FieldValue.ushrt m.m_minutes) refl,
                tt,
              ),
            ),
          );
          field_map = refl;
        })
        (λ e. h.0, (λ e. h.1, (λ e. h.2, tt))) o)

abbrev pub IsExactServerKeepAlive : ServerKeepAlive → Type 0
IsExactServerKeepAlive m = IsExact (FieldValue.int m.m_timestamp)

-- A KEEP_ALIVE of the server whose timestamp fits and is written with its bytes in order is read
-- back whole from a stream that offers what it writes, which leaves the stream 6 bytes further.
pub read_server_keep_alive-write_server_keep_alive :
    (m : ServerKeepAlive) (s : IoStream) (rest : List ℕ)
    → IsExactServerKeepAlive m
    → Offers s (write_server_keep_alive m ++ rest)
    → read_server_keep_alive s ≡ (done m, advance 6 s)
unfolding read_server_keep_alive write_server_keep_alive server_keep_alive_record
    server_keep_alive_template get_size size_fields Field.get_size
read_server_keep_alive-write_server_keep_alive m s rest h o =
    bind_done (catch_as invalid_message_data (read_from server_keep_alive_template)) _ s
      (advance 6 s) (server_keep_alive_record m)
      (message_lem server_keep_alive_template (server_keep_alive_record m) invalid_message_data s
        rest
        (record {
          fields = (
            transferred "m_session_id" (FieldValue.ushrt 0) (FieldValue.ushrt 0) refl,
            (transferred "m_timestamp" (FieldValue.int 0) (FieldValue.int m.m_timestamp) refl, tt),
          );
          field_map = refl;
        })
        (λ e. omega arith, (λ e. h, tt)) o)
