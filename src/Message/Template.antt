-- ===== src/Message/Template.antt =====
-- MessageTemplate of protocol/dml.
use libki.Common.{ℕ, true, [], Option, none, some, get_elem?}
use Prim.Native.String.{String}
use libki.Common.Result.{Result, ok, fault}
use libki.Dml.Field.{FieldType, FieldValue}
use libki.Dml.Record.{DmlRecord, add_field, set_value, get_field_of}
use libki.Control.{ProtocolError, number_at}
use libki.Map.Names.{Name}

pub record MessageTemplate : Type 0 where
  pub m_name : Name
  pub m_type : ℕ
  pub m_service_id : ℕ
  pub m_record : DmlRecord

-- `get_value()` through the pointer to a STR field.
abbrev pub text_of : FieldValue → Name
text_of (FieldValue.str v) = v
text_of _ = []

abbrev pub text_at : ℕ → DmlRecord → Name
text_at p r = elim (get_elem? r.m_fields p) [ none ↦ [] | some f ↦ text_of f.m_value ]

-- `record.get_field<UBYT>(name)` and its value, and the same for STR.
abbrev pub byte_named : String → DmlRecord → Option ℕ
byte_named name r = elim (get_field_of FieldType.ubyt name r) [
  | none ↦ none
  | some p ↦ some (number_at p r)
]

abbrev pub text_named : String → DmlRecord → Option Name
text_named name r = elim (get_field_of FieldType.str name r) [
  | none ↦ none
  | some p ↦ some (text_at p r)
]

unfoldable pub set_name : Name → MessageTemplate → MessageTemplate
set_name name t = record t { m_name = name }

unfoldable pub set_type : ℕ → MessageTemplate → MessageTemplate
set_type type t = record t { m_type = type }

unfoldable pub set_service_id : ℕ → MessageTemplate → MessageTemplate
set_service_id service_id t = record t { m_service_id = service_id }

unfoldable pub set_record : DmlRecord → MessageTemplate → MessageTemplate
set_record r t = record t { m_record = r }

unfoldable pub get_handler : MessageTemplate → Name
get_handler t = elim (text_named "_MsgHandler" t.m_record) [ none ↦ t.m_name | some v ↦ v ]

unfoldable pub get_access_level : MessageTemplate → ℕ
get_access_level t = elim (byte_named "_MsgAccessLvl" t.m_record) [ none ↦ 0 | some v ↦ v ]

-- `m_record->add_field<T>(name)->set_value(v)`: a field of another type gives a null pointer.
unfoldable pub set_field :
    FieldType → String → FieldValue → MessageTemplate → Result ProtocolError MessageTemplate
unfolding add_field set_value
set_field type name v t =
    let (p, r) = add_field type name true t.m_record in
    elim p [ none ↦ fault | some i ↦ ok (record t { m_record = set_value i v r }) ]

unfoldable pub set_handler : Name → MessageTemplate → Result ProtocolError MessageTemplate
set_handler handler t = set_field FieldType.str "_MsgHandler" (FieldValue.str handler) t

unfoldable pub set_access_level : ℕ → MessageTemplate → Result ProtocolError MessageTemplate
set_access_level level t = set_field FieldType.ubyt "_MsgAccessLvl" (FieldValue.ubyt level) t
