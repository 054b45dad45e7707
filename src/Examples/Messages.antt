-- ===== src/Examples/Messages.antt =====
-- protocol/dml, DMLSession and the pieces of a session's input at concrete inputs.
use libki.Common.{
  ℕ, ◌+◌, ◌≤◌, ◌<◌, ◌≡◌, ◌⊎◌, inl, refl, arith, List, [], ◌∷◌, ◌++◌, none, some, true, false, leb,
  ◌==◌, if◌then◌else◌, replicate, get_elem?, ◌*◌, ◌^◌,
}
use Prim.Native.String.{String}
use text.Mathlib.Text.{◌==◌ as str_eq}
use libki.Common.Result.{ok}
use libki.Io
use libki.Io.{IoStream, of_string}
use libki.Io.Laws.{Offers, advance}
use libki.Dml.Bytes.{done, memory, write_ushrt}
use libki.Dml.Field
use libki.Dml.Field.{FieldType, FieldValue}
use libki.Dml.Record
use libki.Dml.Record.{DmlField, DmlRecord}
use libki.Dml.Record.RoundTrip.{SameRecordKind, AllExact}
use libki.Dml.Xml.{ValueText, from_xml, as_xml, c_str}
use libki.Dml.Xml.RoundTrip.{from_xml-as_xml}
use libki.Map.{find}
use libki.Map.Names.{Name, name_before}
use libki.Message.Header.{header_record}
use libki.Message.Template.{MessageTemplate, get_access_level}
use libki.Message.Body.{message, write_to, read_from, set_template}
use libki.Message.Body.RoundTrip.{full, held, header_for, IsSendable, set_template-read_from}
use libki.Message.Module.{MessageModule, sort_lookup, template_of_type, add_message_template}
use libki.Message.Module.Types.{IsNameOrdered, sort_lookup-numbers}
use libki.Message.Module.Invariant.{add_message_template-IsNameOrdered}
use libki.Message.Manager.{MessageManager, Document, parsed, load_module, module_of_service}
use libki.Message.Manager.Loading.{IsIndexed}
use libki.Message.Manager.Lookup.{Unchanged, Registered, load_module-IsIndexed, load_module-refines}
use libki.Message.Manager.Binary.{filled_message, message_from_binary}
use libki.Message.Manager.Binary.RoundTrip.{Finds, message_from_binary-write_to}
use libki.Net.Session.{
  Session, Handlers, waiting_for_packet, finished, returned, process_data, process, turn,
  receive_start, receive_length, receive_packet, session, sent,
}
use libki.Net.Client
use libki.Net.Framing.Delivery.{IsIdle, settled}
use libki.Net.Framing.Chunks.{IsInside}
use libki.Net.Framing.Joined.{process_data-append}
use libki.Net.Framing.Bounds.{IsFraming, process_data-IsFraming}
use libki.Net.DmlSession.{DmlHandlers, insufficient_access, send_message, with_messages}
use libki.Net.DmlSession.Delivery.{message_taken, process_data-send_message}

-- A record with one field of one byte.
abbrev one_byte : ℕ → DmlRecord
one_byte v = record {
  m_fields = record { m_name = "Level"; m_transferable = true; m_value = FieldValue.ubyt v } ∷ [];
  m_field_map = ("Level", 0) ∷ [];
}

-- The texts of a few small numbers.
abbrev format_digit : FieldValue → String
format_digit (FieldValue.ubyt v) = if v == 7 then "7" else if v == 1 then "1" else ""
format_digit _ = ""

abbrev parse_digit : FieldType → String → FieldValue
parse_digit t s =
    if str_eq s "7"
    then FieldValue.ubyt 7
    else if str_eq s "1"
    then FieldValue.ubyt 1
    else FieldValue.ubyt 0

abbrev digits : ValueText
digits = record { format = format_digit; parse = parse_digit }

from_xml-as_xml_example :
    from_xml digits (as_xml digits (one_byte 7)) Record.empty ≡ (Record.copy (one_byte 7), none)
unfolding c_str
from_xml-as_xml_example =
    from_xml-as_xml digits (one_byte 7) (inl (λ e. cc, refl), tt) (refl, tt) (tt, tt)

abbrev level : MessageTemplate
level = record { m_name = 0x4c ∷ []; m_type = 1; m_service_id = 5; m_record = one_byte 0 }

abbrev bonus : MessageTemplate
bonus = record { m_name = 0x42 ∷ []; m_type = 0; m_service_id = 5; m_record = one_byte 1 }

same_kind : SameRecordKind (Record.copy level.m_record) (one_byte 7)
unfolding Record.copy Record.add_all Record.push_field Record.empty Record.lookup
same_kind = record {
  fields = (record { name = refl; transferable = refl; type = refl; value = λ e. cc }, tt);
  field_map = refl;
}

level_is_exact : AllExact (one_byte 7).m_fields
level_is_exact = (λ e. omega arith, tt)

level-IsSendable : IsSendable level (one_byte 7)
unfolding Record.get_size Record.size_fields Field.get_size
level-IsSendable = record {
  service_id = omega arith;
  type = omega arith;
  same = same_kind;
  exact = level_is_exact;
  size = omega arith;
}

abbrev game : MessageModule
game = record {
  m_service_id = 5;
  m_protocol_type = 0x47 ∷ [];
  m_protocol_description = [];
  m_last_message_type = 0;
  m_templates = level ∷ bonus ∷ [];
  m_message_type_map = (1, 0) ∷ [];
  m_message_name_map = (0x42 ∷ [], 1) ∷ (0x4c ∷ [], 0) ∷ [];
}

abbrev games : MessageManager
games = record {
  m_modules = game ∷ [];
  m_service_id_map = (5, 0) ∷ [];
  m_protocol_type_map = (0x47 ∷ [], 0) ∷ [];
}

level_found : Finds games 5 1 level
unfolding module_of_service find template_of_type
level_found = (game, 0, refl, refl, refl)

some_bytes : 0 < Record.get_size (one_byte 7)
unfolding Record.get_size Record.size_fields Field.get_size
some_bytes = omega arith

small_size : Record.get_size (one_byte 7) < 2 ^ 16
unfolding Record.get_size Record.size_fields Field.get_size
small_size = omega arith

same_size : Record.get_size level.m_record ≤ Record.get_size (one_byte 7)
unfolding Record.get_size Record.size_fields Field.get_size
same_size = omega arith

abbrev level_bytes : IoStream
level_bytes = of_string (5 ∷ 1 ∷ 5 ∷ 0 ∷ 7 ∷ 0x6b ∷ [])

level_offered : Offers level_bytes (write_to (full level (one_byte 7)) ++ (0x6b ∷ []))
unfolding write_to of_string message Record.write_to Record.write_fields header_record
    Field.write_to memory write_ushrt Record.get_size Record.size_fields Field.get_size
level_offered = record { is_good = refl; input_is = refl }

set_template-read_from_example :
    (read_from (message none) level_bytes
      ≡ (ok tt, held level (one_byte 7), advance (4 + Record.get_size (one_byte 7)) level_bytes))
    × (set_template (some level) (held level (one_byte 7))
        ≡ (ok tt, record (full level (one_byte 7)) { m_header = header_for level (one_byte 7) }))
set_template-read_from_example =
    set_template-read_from level (one_byte 7) level_bytes (0x6b ∷ []) level-IsSendable some_bytes
      level_offered

message_from_binary-write_to_example : message_from_binary games level_bytes ≡ (
  done (filled_message level (one_byte 7)),
  advance (4 + Record.get_size (one_byte 7)) level_bytes,
)
message_from_binary-write_to_example =
    message_from_binary-write_to games level (one_byte 7) level_bytes (0x6b ∷ []) level_found
      (omega arith) (omega arith) same_kind level_is_exact same_size small_size level_offered

game-IsNameOrdered : IsNameOrdered game
unfolding name_before
game-IsNameOrdered = record { sorted = ((refl, tt), (tt, tt)); named = (refl, (refl, tt)) }

sort_lookup-numbers_example :
    ((sort_lookup game).0 ≡ ok tt)
    × (template_of_type 2 (sort_lookup game).1 ≡ some 0)
    × (get_elem? (sort_lookup game).1.m_templates 0 ≡ some (record level { m_type = 2 }))
sort_lookup-numbers_example =
    sort_lookup-numbers game 1 (0x4c ∷ [], 0) level game-IsNameOrdered (omega arith) refl refl

abbrev bonus_place : Name × ℕ
bonus_place = (0x42 ∷ [], 1)

abbrev crowded : MessageModule
crowded = record game { m_message_name_map = replicate 255 bonus_place }

add_message_template-IsNameOrdered_example :
    IsNameOrdered (add_message_template (0x43 ∷ []) (some (one_byte 3)) true game).1
add_message_template-IsNameOrdered_example =
    add_message_template-IsNameOrdered (0x43 ∷ []) (some (one_byte 3)) true game game-IsNameOrdered

games-IsIndexed : IsIndexed games
games-IsIndexed = record {
  services_sorted = (tt, tt);
  protocols_sorted = (tt, tt);
  services = (refl, tt);
  protocols = (refl, tt);
  modules_ordered = (game-IsNameOrdered, tt);
}

-- A file with one message.
abbrev one_message : Document
one_message =
    parsed
      (some (record { name = "MSG_LEVEL"; first_node = some (as_xml digits (one_byte 7)) } ∷ []))

load_module-IsIndexed_example : IsIndexed (load_module digits one_message games).1
load_module-IsIndexed_example = load_module-IsIndexed digits one_message games games-IsIndexed

load_module-refines_example :
    Unchanged games (load_module digits one_message games) 5 (0x47 ∷ [])
    ⊎ Registered games (load_module digits one_message games) 5 (0x47 ∷ [])
load_module-refines_example =
    load_module-refines digits one_message games 5 (0x47 ∷ []) games-IsIndexed

abbrev tick : ℕ → ℕ
tick n = n * 1000000

abbrev player : Session
player = session tick 7

abbrev player_handlers : Handlers
player_handlers = Client.handlers tick tick

-- A subclass that does nothing with its messages.
abbrev silent : DmlHandlers
silent = record { on_message = λ m s. s; on_invalid_message = λ e s. s }

player-IsIdle : IsIdle player
unfolding session
player-IsIdle = record {
  between = record { state_is = refl; signal_is = refl; shift_is = refl };
  stream_is_good = refl;
}

player-IsInside : IsInside player
unfolding session
player-IsInside = refl

-- The player when a piece of input has ended in a packet of four bytes behind its first byte.
abbrev halfway : Session
halfway = record player {
  m_data_stream = record { chars = 1 ∷ []; get_pos = 0; put_pos = 1; eof = false; fail = false };
  m_receive_state = waiting_for_packet;
  m_start_signal = 0xf00d;
  m_incoming_packet_size = 3;
  m_shift = 8;
}

first_piece : process_data player_handlers (0x0d ∷ 0xf0 ∷ 4 ∷ 0 ∷ 1 ∷ []) player ≡ finished halfway
unfolding process_data process turn receive_start receive_length receive_packet session Io.write
    Io.rewind_get Io.rewind_put Io.empty
first_piece = refl

process_data-append_example :
    process_data player_handlers (0x0d ∷ 0xf0 ∷ 4 ∷ 0 ∷ 1 ∷ 9 ∷ 0 ∷ 0 ∷ []) player
    ≡ process_data player_handlers (9 ∷ 0 ∷ 0 ∷ []) halfway
process_data-append_example =
    process_data-append player_handlers (0x0d ∷ 0xf0 ∷ 4 ∷ 0 ∷ 1 ∷ []) (9 ∷ 0 ∷ 0 ∷ []) player
      halfway player-IsInside first_piece

player-IsFraming : IsFraming player
unfolding session
player-IsFraming = record { signal = omega arith; shift = refl; size = refl }

process_data-IsFraming_example :
    (s' : Session) × ((process_data player_handlers (0x0d ∷ 0xf0 ∷ 9 ∷ []) player ≡ finished s')
      ⊎ (process_data player_handlers (0x0d ∷ 0xf0 ∷ 9 ∷ []) player ≡ returned s'))
    × IsFraming s'
process_data-IsFraming_example =
    process_data-IsFraming player_handlers (0x0d ∷ 0xf0 ∷ 9 ∷ []) player player-IsFraming

small_packet : Record.get_size (one_byte 7) + 8 < 2 ^ 16
unfolding Record.get_size Record.size_fields Field.get_size
small_packet = omega arith

fitting_packet : Record.get_size (one_byte 7) + 8 ≤ player.m_maximum_packet_size
unfolding Record.get_size Record.size_fields Field.get_size session
fitting_packet = omega arith

process_data-send_message_example :
    (bytes : List ℕ) × ((send_message (full level (one_byte 7)) player).events
      ≡ player.events ++ (sent bytes ∷ []))
    × (process_data (with_messages games silent player_handlers) bytes player
        ≡ finished (
            settled (
              if leb (get_access_level level) player.m_access_level
              then silent.on_message
                  (full level (one_byte 7))
                  (message_taken level (one_byte 7) player)
              else silent.on_invalid_message insufficient_access
                  (message_taken level (one_byte 7) player))))
process_data-send_message_example =
    process_data-send_message games silent player_handlers level (one_byte 7) player player
      level-IsSendable level_found same_size player-IsIdle small_packet fitting_packet
