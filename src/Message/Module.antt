-- ===== src/Message/Module.antt =====
-- MessageModule of protocol/dml: templates, found by type and by name.
pub mod Sorting
pub mod Types
pub mod Invariant
use libki.Common.{
  ℕ, zero, suc, ◌+◌, ◌%◌, List, [], ◌∷◌, ◌++◌, Option, none, some, Bool, true, false, ltb, ◌==◌,
  if◌then◌else◌, length, get_elem?, set,
}
use libki.Common.Result.{Result, ok, throw}
use libki.Dml.Record.{DmlRecord}
use libki.Control.{ProtocolError, exceeds_limit, dml_invalid_message_type, dml_invalid_message_name}
use libki.Map.{find, insert}
use libki.Map.Names.{Name, name_before}
use libki.Message.Template.{MessageTemplate, set_type, byte_named, text_named}
use libki.Message.Body.{Message, create_message}

pub record MessageModule : Type 0 where
  pub m_service_id : ℕ
  pub m_protocol_type : Name
  pub m_protocol_description : Name
  pub m_last_message_type : ℕ
  pub m_templates : List MessageTemplate
  pub m_message_type_map : List (ℕ × ℕ)
  pub m_message_name_map : List (Name × ℕ)

unfoldable pub message_module : ℕ → Name → MessageModule
message_module service_id protocol_type = record {
  m_service_id = service_id;
  m_protocol_type = protocol_type;
  m_protocol_description = [];
  m_last_message_type = 0;
  m_templates = [];
  m_message_type_map = [];
  m_message_name_map = [];
}

unfoldable pub set_service_id : ℕ → MessageModule → MessageModule
set_service_id service_id m = record m { m_service_id = service_id }

unfoldable pub set_protocol_type : Name → MessageModule → MessageModule
set_protocol_type protocol_type m = record m { m_protocol_type = protocol_type }

unfoldable pub set_protocol_description : Name → MessageModule → MessageModule
set_protocol_description description m = record m { m_protocol_description = description }

-- get_message_template by type and by name.
unfoldable pub template_of_type : ℕ → MessageModule → Option ℕ
template_of_type type m = find ltb type m.m_message_type_map

unfoldable pub template_of_name : Name → MessageModule → Option ℕ
template_of_name name m = find name_before name m.m_message_name_map

-- `set_type` through a pointer.
abbrev pub type_put : ℕ → ℕ → Option MessageTemplate → List MessageTemplate → List MessageTemplate
type_put p type none templates = templates
type_put p type (some t) templates = set templates p (record t { m_type = type })

abbrev pub set_type_at : ℕ → ℕ → List MessageTemplate → List MessageTemplate
set_type_at p type templates = type_put p type (get_elem? templates p) templates

-- The loop of sort_lookup, over the rest of the map of names.
unfoldable pub sort_loop :
    List (Name × ℕ) → ℕ → MessageModule → Result ProtocolError (Unit {0}) × MessageModule
unfolding insert
sort_loop [] type m = (ok tt, m)
sort_loop ((name, p) ∷ rest) type m =
    let m' = record m {
      m_templates = set_type_at p type m.m_templates;
      m_message_type_map = insert ltb type p m.m_message_type_map;
    } in
    let next = (type + 1) % 256 in
    let go_on = sort_loop rest next m' in if next == 0 then (throw exceeds_limit, m') else go_on

unfoldable pub sort_lookup : MessageModule → Result ProtocolError (Unit {0}) × MessageModule
unfolding sort_loop
sort_lookup m = sort_loop m.m_message_name_map 1 (record m { m_message_type_map = [] })

-- The result of add_message_template when sorting has not thrown.
abbrev then_return :
    ℕ
    → Result ProtocolError (Unit {0}) × MessageModule
    → Result ProtocolError (Option ℕ) × MessageModule
then_return p (ok u, m) = (ok (some p), m)
then_return p (throw e, m) = (throw e, m)
then_return p (Result.fault, m) = (Result.fault, m)
then_return p (Result.stuck, m) = (Result.stuck, m)

-- The last part of add_message_template: the new template goes to the maps.
unfoldable pub append_template :
    Name → ℕ → DmlRecord → Bool → MessageModule → Result ProtocolError (Option ℕ) × MessageModule
unfolding insert sort_lookup
append_template name type r auto_sort m =
    let p = length m.m_templates in
    let t : MessageTemplate = record {
      m_name = name;
      m_type = type;
      m_service_id = m.m_service_id;
      m_record = r;
    } in
    let m' = record m {
      m_templates = m.m_templates ++ (t ∷ []);
      m_message_name_map = insert name_before name p m.m_message_name_map;
    } in
    if type == 0
    then (if auto_sort then then_return p (sort_lookup m') else (ok (some p), m'))
    else (ok (some p), record m' { m_message_type_map = insert ltb type p m'.m_message_type_map })

-- `order_field`: a module is ordered by _MsgOrder where it is there.
abbrev append_ordered :
    Name
    → Option ℕ
    → DmlRecord
    → Bool
    → MessageModule
    → Result ProtocolError (Option ℕ) × MessageModule
append_ordered name none r auto_sort m = append_template name 0 r auto_sort m
append_ordered name (some order) r auto_sort m =
    if order == 0 then (ok none, m) else elim (template_of_type order m) [
      | some p ↦ (ok none, m)
      | none ↦ append_template name order r auto_sort m
    ]

abbrev name_or : Option Name → Name → Name
name_or none name = name
name_or (some v) name = v

-- add_message_template, where `none` is the null pointer.
unfoldable pub add_message_template :
    Name → Option DmlRecord → Bool → MessageModule → Result ProtocolError (Option ℕ) × MessageModule
unfolding template_of_type template_of_name append_template
add_message_template name none auto_sort m = (ok none, m)
add_message_template name (some r) auto_sort m =
    let name' = name_or (text_named "_MsgName" r) name in
    elim (template_of_name name' m) [
      | some p ↦ (ok (some p), m)
      | none ↦ append_ordered name' (byte_named "_MsgOrder" r) r auto_sort m
    ]

-- create_message, by what the lookup gave.
abbrev pub create_or : ProtocolError → Option ℕ → MessageModule → Result ProtocolError Message
create_or e none m = throw e
create_or e (some p) m = elim (get_elem? m.m_templates p) [
  | none ↦ Result.fault
  | some t ↦ ok (create_message t)
]

unfoldable pub create_message_of_type : ℕ → MessageModule → Result ProtocolError Message
unfolding template_of_type
create_message_of_type type m = create_or dml_invalid_message_type (template_of_type type m) m

unfoldable pub create_message_of_name : Name → MessageModule → Result ProtocolError Message
unfolding template_of_name
create_message_of_name name m = create_or dml_invalid_message_name (template_of_name name m) m
