-- ===== src/Message/Manager.antt =====
-- MessageManager of protocol/dml: modules, found by service and by protocol type.
-- The document that load_module parses is what rapidxml makes of the file: a missing file, text that
-- it refuses, or the children of the root node, if there is one.
pub mod Loading
pub mod Lookup
pub mod Binary
use libki.Common.{
  ℕ, List, [], ◌∷◌, ◌++◌, Option, none, some, Bool, true, false, ltb, ◌==◌, if◌then◌else◌, length,
  get_elem?,
}
use Prim.Native.Char.{code}
use Prim.Native.String.{String}
use text.Mathlib.Text.{◌==◌ as str_eq}
use libki.Common.Result.{Result, ok, throw, ◌>>=◌}
use libki.Dml.Bytes.{DmlError}
use libki.Dml.Record
use libki.Dml.Record.{DmlRecord}
use libki.Dml.Xml.{XmlRecord, ValueText, from_xml}
use libki.Control.{
  ProtocolError, invalid_xml_data, invalid_message_data, value_none, missing_file,
  overwrites_lookup, dml_invalid_service, dml_invalid_protocol_type, dml_invalid_message_type,
  dml_exception, catch_as,
}
use libki.Map.{find, insert}
use libki.Map.Names.{Name, name_before}
use libki.Message.Header.{MessageHeader, read_header}
use libki.Message.Template.{MessageTemplate, byte_named, text_named}
use libki.Message.Body.{Message, message}
use libki.Message.Module.{
  MessageModule, message_module, add_message_template, create_message_of_type,
  create_message_of_name, template_of_type,
}

pub record MessageManager : Type 0 where
  pub m_modules : List MessageModule
  pub m_service_id_map : List (ℕ × ℕ)
  pub m_protocol_type_map : List (Name × ℕ)

unfoldable pub message_manager : MessageManager
message_manager = record { m_modules = []; m_service_id_map = []; m_protocol_type_map = [] }

-- A child of the root node, with the first node inside it.
pub record ModuleNode : Type 0 where
  pub name : String
  pub first_node : Option XmlRecord

pub data Document : Type 0 where
  missing malformed : Document
  parsed : Option (List ModuleNode) → Document

-- The characters of a node's name, which are ASCII.
abbrev pub characters : String → Name
characters String.[] = []
characters (String.◌∷◌ c s) = code c ∷ characters s

abbrev or_keep {ℓ} : {A : Type ℓ} → Option A → A → A
or_keep none a = a
or_keep (some b) a = b

-- The node _ProtocolInfo.
unfoldable pub protocol_info : DmlRecord → MessageModule → MessageModule
protocol_info r m = record m {
  m_service_id = or_keep (byte_named "ServiceID" r) m.m_service_id;
  m_protocol_type = or_keep (text_named "ProtocolType" r) m.m_protocol_type;
  m_protocol_description = or_keep (text_named "ProtocolDescription" r) m.m_protocol_description;
}

abbrev template_added :
    Result ProtocolError (Option ℕ) × MessageModule → Result ProtocolError MessageModule
template_added (ok none, m) = throw value_none
template_added (ok (some p), m) = ok m
template_added (throw e, m) = throw e
template_added (Result.fault, m) = Result.fault
template_added (Result.stuck, m) = Result.stuck

-- A node with its record; `last` says that no sibling follows.
abbrev node_read :
    String → Bool → MessageModule → DmlRecord × Option DmlError → Result ProtocolError MessageModule
node_read name last m (r, some e) = throw dml_exception
node_read name last m (r, none) =
    if str_eq name "_ProtocolInfo"
    then ok (protocol_info r m)
    else template_added (add_message_template (characters name) (some r) last m)

abbrev pub is_last {ℓ} : {A : Type ℓ} → List A → Bool
is_last [] = true
is_last (x ∷ xs) = false

unfoldable pub load_node :
    ValueText → ModuleNode → Bool → MessageModule → Result ProtocolError MessageModule
unfolding from_xml protocol_info add_message_template
load_node texts node last m = elim (node.first_node) [
  | none ↦ ok m
  | some r ↦ node_read node.name last m (from_xml texts r Record.empty)
]

unfoldable pub load_nodes :
    ValueText → List ModuleNode → MessageModule → Result ProtocolError MessageModule
load_nodes texts [] m = ok m
load_nodes texts (node ∷ nodes) m =
    load_node texts node (is_last nodes) m >>= λ m'. load_nodes texts nodes m'

-- The tests and insertions at the end of load_module.
unfoldable pub add_module : MessageModule → MessageManager → Result ProtocolError ℕ × MessageManager
unfolding find insert
add_module m manager =
    let p = length manager.m_modules in
    elim (find ltb m.m_service_id manager.m_service_id_map) [
      | some q ↦ (throw overwrites_lookup, manager)
      | none ↦ elim (find name_before m.m_protocol_type manager.m_protocol_type_map) [
        | some q ↦ (throw overwrites_lookup, manager)
        | none ↦ (
          ok p,
          record {
            m_modules = manager.m_modules ++ (m ∷ []);
            m_service_id_map = insert ltb m.m_service_id p manager.m_service_id_map;
            m_protocol_type_map =
                insert name_before m.m_protocol_type p manager.m_protocol_type_map;
          },
        )
      ]
    ]

abbrev pub module_loaded :
    MessageManager → Result ProtocolError MessageModule → Result ProtocolError ℕ × MessageManager
module_loaded manager (ok m) = add_module m manager
module_loaded manager (throw e) = (throw e, manager)
module_loaded manager Result.fault = (Result.fault, manager)
module_loaded manager Result.stuck = (Result.stuck, manager)

unfoldable pub load_module :
    ValueText → Document → MessageManager → Result ProtocolError ℕ × MessageManager
unfolding load_nodes add_module message_module
load_module texts missing manager = (throw missing_file, manager)
load_module texts malformed manager = (throw invalid_xml_data, manager)
load_module texts (parsed none) manager = (Result.fault, manager)
load_module texts (parsed (some nodes)) manager =
    module_loaded manager (load_nodes texts nodes (message_module 0 []))

-- get_module by service and by protocol type.
unfoldable pub module_of_service : ℕ → MessageManager → Option ℕ
module_of_service service_id manager = find ltb service_id manager.m_service_id_map

unfoldable pub module_of_protocol : Name → MessageManager → Option ℕ
module_of_protocol protocol_type manager =
    find name_before protocol_type manager.m_protocol_type_map

-- The pointed-to module.
abbrev pub module_at : Option ℕ → MessageManager → Option MessageModule
module_at none manager = none
module_at (some p) manager = get_elem? manager.m_modules p

-- The four forms of create_message.
abbrev in_module :
    ProtocolError
    → (MessageModule → Result ProtocolError Message)
    → Option MessageModule
    → Result ProtocolError Message
in_module e create none = throw e
in_module e create (some m) = create m

unfoldable pub create_message : ℕ → ℕ → MessageManager → Result ProtocolError Message
unfolding module_of_service create_message_of_type
create_message service_id type manager =
    in_module dml_invalid_service (create_message_of_type type)
      (module_at (module_of_service service_id manager) manager)

unfoldable pub create_message_by_name : ℕ → Name → MessageManager → Result ProtocolError Message
unfolding module_of_service create_message_of_name
create_message_by_name service_id name manager =
    in_module dml_invalid_service (create_message_of_name name)
      (module_at (module_of_service service_id manager) manager)

unfoldable pub create_message_of_protocol : Name → ℕ → MessageManager → Result ProtocolError Message
unfolding module_of_protocol create_message_of_type
create_message_of_protocol protocol_type type manager =
    in_module dml_invalid_protocol_type (create_message_of_type type)
      (module_at (module_of_protocol protocol_type manager) manager)

unfoldable pub create_message_of_protocol_by_name :
    Name → Name → MessageManager → Result ProtocolError Message
unfolding module_of_protocol create_message_of_name
create_message_of_protocol_by_name protocol_type name manager =
    in_module dml_invalid_protocol_type (create_message_of_name name)
      (module_at (module_of_protocol protocol_type manager) manager)
