-- ===== src/Message/Body/RoundTrip.antt =====
-- A message that is received without a template, and gets it later.
use libki.Common.{
  ℕ, zero, suc, ◌+◌, ◌%◌, ◌^◌, ◌<◌, ◌≡◌, refl, ap, ap₂, sym, ◌∙◌, arith, List, [], ◌++◌, append-nil,
  append_assoc, none, some, true, false, ◌==◌, if◌then◌else◌, length, drop, replicate,
}
use libki.Common.Result.{ok, throw}
use libki.Io
use libki.Io.{IoStream, of_string}
use libki.Io.Laws.{Offers, advance, advance-Offers, read_lem}
use libki.Buffer.{resize}
use libki.Dml.Field.RoundTrip.{advance-advance}
use libki.Control.{insufficient_message_data}
use libki.Dml.Field
use libki.Dml.Record
use libki.Dml.Record.{DmlRecord}
use libki.Dml.Record.RoundTrip.{
  SameRecordKind, AllExact, length-write_to_record, record_read_from-write_to,
}
use libki.Message.Header.{MessageHeader, header_record, write_header, read_header-write_header}
use libki.Message.Template.{MessageTemplate}
use libki.Message.Body.{
  Message, message, set_template, read_from, read_payload, header_then, raw_read, write_to,
}

pub length-write_header :
    (h : MessageHeader) → h.m_service_id < 2 ^ 8 → h.m_type < 2 ^ 8 → length (write_header h) ≡ 4
unfolding write_header header_record Record.get_size Record.size_fields Field.get_size
length-write_header h p q =
    length-write_to_record (header_record h) (λ e. p, (λ e. q, (λ e. omega arith, tt)))

-- The header that a message of the template with the record writes.
abbrev pub header_for : MessageTemplate → DmlRecord → MessageHeader
header_for t r = record {
  m_service_id = t.m_service_id;
  m_type = t.m_type;
  m_size = Record.get_size r % 2 ^ 16;
}

-- A message of the template with the record, and what is sent of it.
abbrev pub full : MessageTemplate → DmlRecord → Message
full t r = record (message (some t)) { m_record = some r }

-- A message that holds the bytes of the record behind its header.
abbrev pub held : MessageTemplate → DmlRecord → Message
held t r = record (message none) { m_header = header_for t r; m_raw_data = Record.write_to r }

drop_zeros : (z n : ℕ) → drop n (replicate n z) ≡ []
drop_zeros z zero = refl
drop_zeros z (suc n) = drop_zeros z n

no_room : (n : ℕ) → drop n (resize n []) ≡ []
unfolding resize
no_room n = ground (arith, drop_zeros 0 n)

no_fail : (s : IoStream) → Io.good s ≡ true → s.fail ≡ false
no_fail s e = ground arith

module _ (t : MessageTemplate) (r : DmlRecord) where
  -- The message fits its template, and its sizes their fields.
  pub record IsSendable : Type 0 where
    pub service_id : t.m_service_id < 2 ^ 8
    pub type : t.m_type < 2 ^ 8
    pub same : SameRecordKind (Record.copy t.m_record) r
    pub exact : AllExact r.m_fields
    pub size : Record.get_size r < 2 ^ 16

  read_payload-raw :
      (s : IoStream) (rest : List ℕ)
      → IsSendable
      → Offers s (Record.write_to r ++ rest)
      → read_payload (record (message none) { m_header = header_for t r }) s
        ≡ (ok tt, held t r, advance (Record.get_size r) s)
  unfolding read_payload message
  read_payload-raw s rest i o =
      ap (raw_read (record (message none) { m_header = header_for t r })) (
        ap (λ n. Io.read n s) mod_lem
        ∙ read_lem (Record.get_size r) s (Record.write_to r) rest long o)
      ∙ ap₂
          (λ b raw. (
            if b then throw insufficient_message_data else ok tt,
            record (message none) { m_header = header_for t r; m_raw_data = raw },
            advance (Record.get_size r) s,
          ))
          (no_fail s o.is_good) filled
    where
      mod_lem : Record.get_size r % 2 ^ 16 ≡ Record.get_size r
      mod_lem = omega (arith, i.size)

      long : length (Record.write_to r) ≡ Record.get_size r
      long = length-write_to_record r i.exact

      filled :
          Record.write_to r
            ++ drop (length (Record.write_to r)) (resize (Record.get_size r % 2 ^ 16) [])
          ≡ Record.write_to r
      filled =
          ap₂ (λ k l. Record.write_to r ++ drop k (resize l [])) long mod_lem
          ∙ ap (λ x. Record.write_to r ++ x) (no_room (Record.get_size r))
          ∙ append-nil (Record.write_to r)

  -- Without a template, the message holds the bytes of the record.
  read_from-write_to_raw :
      (s : IoStream) (rest : List ℕ)
      → IsSendable
      → Offers s (write_to (full t r) ++ rest)
      → read_from (message none) s ≡ (ok tt, held t r, advance (4 + Record.get_size r) s)
  unfolding read_from write_to message
  read_from-write_to_raw s rest i o =
      ap (header_then (message none)) (
        read_header-write_header (header_for t r) s (Record.write_to r ++ rest) i.service_id i.type
          (omega arith) o')
      ∙ read_payload-raw (advance 4 s) rest i (
          rw (length-write_header (header_for t r) i.service_id i.type) at
            (advance-Offers s (write_header (header_for t r)) (Record.write_to r ++ rest) o'))
      ∙ ap (λ s'. (ok tt, held t r, s')) (advance-advance 4 (Record.get_size r) s)
    where
      o' : Offers s (write_header (header_for t r) ++ (Record.write_to r ++ rest))
      o' = rw (append_assoc (write_header (header_for t r)) (Record.write_to r) rest) at o

  -- The template makes the record of these bytes.
  set_template-held :
      IsSendable
      → 0 < Record.get_size r
      → set_template (some t) (held t r) ≡ (ok tt, record (full t r) { m_header = header_for t r })
  unfolding set_template message of_string
  set_template-held i some_data =
      rw
        (
          long,
          nonzero,
          record_read_from-write_to (Record.copy t.m_record) r (of_string (Record.write_to r)) []
              i.same i.exact offered,
        )
        refl
    where
      long : length (Record.write_to r) ≡ Record.get_size r
      long = length-write_to_record r i.exact

      nonzero : (Record.get_size r == 0) ≡ false
      nonzero = ground arith

      offered : Offers (of_string (Record.write_to r)) (Record.write_to r ++ [])
      offered = record { is_good = refl; input_is = sym (append-nil (Record.write_to r)) }

  -- Let a record have the fields of a template's up to the values of transferable ones, values
  -- that are written exactly, and a size above 0 and below 2 ^ 16, and let the template's service
  -- id and type be below 2 ^ 8: a message without a template reads from a stream that offers what
  -- the message of template and record writes the header and the record's bytes, and leaves the
  -- stream behind them; set_template with the template then makes the record of these bytes and
  -- empties them.
  pub set_template-read_from :
      (s : IoStream) (rest : List ℕ)
      → IsSendable
      → 0 < Record.get_size r
      → Offers s (write_to (full t r) ++ rest)
      → (read_from (message none) s ≡ (ok tt, held t r, advance (4 + Record.get_size r) s))
        × (set_template (some t) (held t r)
            ≡ (ok tt, record (full t r) { m_header = header_for t r }))
  set_template-read_from s rest i some_data o =
      (read_from-write_to_raw s rest i o, set_template-held i some_data)
