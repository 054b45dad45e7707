-- ===== src/Message/Manager/Lookup.antt =====
-- The modules that a MessageManager finds after load_module.
use libki.Common.{
  ℕ, ◌≡◌, ◌⊎◌, inl, inr, refl, ap, ap₂, sym, subst, ◌∙◌, arith, List, [], ◌∷◌, Option, none, some,
  Bool, true, false, if_both, ltb, ◌==◌, if◌then◌else◌, length,
}
use Prim.Native.String.{String}
use text.Mathlib.Text.{◌==◌ as str_eq}
use libki.Common.Result.{Result, ok, throw, fault, stuck, ◌>>=◌}
use libki.Dml.Bytes.{DmlError}
use libki.Dml.Record
use libki.Dml.Record.{DmlRecord}
use libki.Dml.Xml.{XmlRecord, ValueText, from_xml}
use libki.Control.{ProtocolError}
use libki.Map.{same}
use libki.Map.Names.{Name, name_before}
use libki.Map.Keyed.{element, element-insert, get_elem?-last}
use libki.Message.Module.{MessageModule, message_module, add_message_template}
use libki.Map.Orders.{ltb-IsOrder, name_before-IsOrder}
use libki.Message.Module.Types.{IsNameOrdered}
use libki.Message.Module.Invariant.{
  EndsOrdered, message_module-IsNameOrdered, add_message_template-IsNameOrdered,
}
use libki.Message.Manager.{
  MessageManager, ModuleNode, Document, missing, malformed, parsed, characters, is_last,
  protocol_info, template_added, node_read, load_node, load_nodes, module_loaded, load_module,
  module_of_service, module_of_protocol, module_at,
}
use libki.Message.Manager.Loading.{IsIndexed, with_module, with_module-IsIndexed, add_module-cases}

-- A module that an operation gives has its names in order.
abbrev GivesOrdered : Result ProtocolError MessageModule → Type 0
GivesOrdered (ok m) = IsNameOrdered m
GivesOrdered (throw e) = Unit {0}
GivesOrdered fault = Unit {0}
GivesOrdered stuck = Unit {0}

then-GivesOrdered :
    (x : Result ProtocolError MessageModule)
    (f : MessageModule → Result ProtocolError MessageModule)
    → GivesOrdered x
    → ((m : MessageModule) → IsNameOrdered m → GivesOrdered (f m))
    → GivesOrdered (x >>= f)
then-GivesOrdered (ok m) f o h = h m o
then-GivesOrdered (throw e) f o h = tt
then-GivesOrdered fault f o h = tt
then-GivesOrdered stuck f o h = tt

template_added-GivesOrdered :
    (x : Result ProtocolError (Option ℕ) × MessageModule)
    → EndsOrdered x
    → GivesOrdered (template_added x)
template_added-GivesOrdered (ok none, m) o = tt
template_added-GivesOrdered (ok (some p), m) o = o
template_added-GivesOrdered (throw e, m) o = tt
template_added-GivesOrdered (fault, m) o = tt
template_added-GivesOrdered (stuck, m) o = tt

node_read-GivesOrdered :
    (name : String) (last : Bool) (m : MessageModule) (x : DmlRecord × Option DmlError)
    → IsNameOrdered m
    → GivesOrdered (node_read name last m x)
unfolding protocol_info
node_read-GivesOrdered name last m (r, some e) o = tt
node_read-GivesOrdered name last m (r, none) o =
    if_both GivesOrdered (str_eq name "_ProtocolInfo")
      (record { sorted = o.sorted; named = o.named })
      (template_added-GivesOrdered (add_message_template (characters name) (some r) last m)
        (add_message_template-IsNameOrdered (characters name) (some r) last m o))

load_node-GivesOrdered :
    (texts : ValueText) (node : ModuleNode) (last : Bool) (m : MessageModule)
    → IsNameOrdered m
    → GivesOrdered (load_node texts node last m)
unfolding load_node
load_node-GivesOrdered texts node last m o = inside (node.first_node)
  where
    inside :
        (x : Option XmlRecord)
        → GivesOrdered (elim x as (λ z. Result ProtocolError MessageModule) [
          | none ↦ ok m
          | some r ↦ node_read node.name last m (from_xml texts r Record.empty)
        ])
    inside none = o
    inside (some r) = node_read-GivesOrdered node.name last m (from_xml texts r Record.empty) o

load_nodes-GivesOrdered :
    (texts : ValueText) (nodes : List ModuleNode) (m : MessageModule)
    → IsNameOrdered m
    → GivesOrdered (load_nodes texts nodes m)
unfolding load_nodes
load_nodes-GivesOrdered texts [] m o = o
load_nodes-GivesOrdered texts (node ∷ nodes) m o =
    then-GivesOrdered (load_node texts node (is_last nodes) m) (λ m'. load_nodes texts nodes m')
      (load_node-GivesOrdered texts node (is_last nodes) m o)
      (λ m'. load_nodes-GivesOrdered texts nodes m')

abbrev pub is_ok : Result ProtocolError ℕ → Bool
is_ok (ok p) = true
is_ok (throw e) = false
is_ok fault = false
is_ok stuck = false

-- What loading does to a manager: nothing, or one more module, under keys that were free.
abbrev pub Loads : MessageManager → Result ProtocolError ℕ × MessageManager → Type 0
Loads manager x =
    ((x.1 ≡ manager) × (is_ok x.0 ≡ false))
    ⊎ ((m : MessageModule) × IsNameOrdered m
        × (x ≡ (ok (length manager.m_modules), with_module m manager))
        × (module_of_service m.m_service_id manager ≡ none)
        × (module_of_protocol m.m_protocol_type manager ≡ none))

module_loaded-cases :
    (manager : MessageManager) (x : Result ProtocolError MessageModule)
    → GivesOrdered x
    → Loads manager (module_loaded manager x)
module_loaded-cases manager (ok m) o = elim (add_module-cases m manager) [
  | inl e ↦ inl (ap (λ y. y.1) e, ap (λ y. is_ok y.0) e)
  | inr e ↦ inr (m, o, e.0, e.1, e.2)
]
module_loaded-cases manager (throw e) o = inl (refl, refl)
module_loaded-cases manager fault o = inl (refl, refl)
module_loaded-cases manager stuck o = inl (refl, refl)

-- load_module adds one module with its names in order, under keys that were free, or changes nothing.
pub load_module-cases :
    (texts : ValueText) (document : Document) (manager : MessageManager)
    → Loads manager (load_module texts document manager)
unfolding load_module
load_module-cases texts missing manager = inl (refl, refl)
load_module-cases texts malformed manager = inl (refl, refl)
load_module-cases texts (parsed none) manager = inl (refl, refl)
load_module-cases texts (parsed (some nodes)) manager =
    module_loaded-cases manager (load_nodes texts nodes (message_module 0 [])) (
      load_nodes-GivesOrdered texts nodes (message_module 0 []) (message_module-IsNameOrdered 0 []))

-- load_module, on every document and also when it throws, leaves a manager whose maps are sorted
-- and lead to the modules of their keys, and whose modules have sorted names that lead to the
-- templates of these names, if it was such a manager before.
pub load_module-IsIndexed :
    (texts : ValueText) (document : Document) (manager : MessageManager)
    → IsIndexed manager
    → IsIndexed (load_module texts document manager).1
load_module-IsIndexed texts document manager i = elim (load_module-cases texts document manager) [
  | inl e ↦ subst IsIndexed (sym e.0) i
  | inr (m, o, e, _, _) ↦ subst (λ x. IsIndexed x.1) (sym e) (with_module-IsIndexed m manager o i)
]

-- The module that the manager has for a service, and for a protocol type.
abbrev pub service_module : ℕ → MessageManager → Option MessageModule
service_module j manager = module_at (module_of_service j manager) manager

abbrev pub protocol_module : Name → MessageManager → Option MessageModule
protocol_module name manager = module_at (module_of_protocol name manager) manager

module_at-element :
    (o : Option ℕ) (manager : MessageManager) → module_at o manager ≡ element manager.m_modules o
module_at-element none manager = refl
module_at-element (some p) manager = refl

same-ltb : (j k : ℕ) → same ltb j k ≡ (j == k)
same-ltb j k = ground arith

service_module-with_module :
    (m : MessageModule) (manager : MessageManager) (j : ℕ)
    → IsIndexed manager
    → module_of_service m.m_service_id manager ≡ none
    → service_module j (with_module m manager)
      ≡ (if j == m.m_service_id then some m else service_module j manager)
unfolding module_of_service
service_module-with_module m manager j i free =
    module_at-element (module_of_service j (with_module m manager)) (with_module m manager)
    ∙ element-insert (λ (x : MessageModule). x.m_service_id) ltb ltb-IsOrder manager.m_modules m j
        manager.m_service_id_map i.services_sorted i.services free
    ∙ ap₂ (λ b o. if b then some m else o) (same-ltb j m.m_service_id)
        (sym (module_at-element (module_of_service j manager) manager))

protocol_module-with_module :
    (m : MessageModule) (manager : MessageManager) (name : Name)
    → IsIndexed manager
    → module_of_protocol m.m_protocol_type manager ≡ none
    → protocol_module name (with_module m manager)
      ≡ (if same name_before name m.m_protocol_type then some m else protocol_module name manager)
unfolding module_of_protocol
protocol_module-with_module m manager name i free =
    module_at-element (module_of_protocol name (with_module m manager)) (with_module m manager)
    ∙ element-insert (λ (x : MessageModule). x.m_protocol_type) name_before name_before-IsOrder
        manager.m_modules m name manager.m_protocol_type_map i.protocols_sorted i.protocols free
    ∙ ap (λ o. if same name_before name m.m_protocol_type then some m else o)
        (sym (module_at-element (module_of_protocol name manager) manager))

-- A registry is what a manager gives for a service and for a protocol type. Loading either leaves
-- both answers, or adds one module to both.
abbrev pub Unchanged : MessageManager → Result ProtocolError ℕ × MessageManager → ℕ → Name → Type 0
Unchanged manager x j name =
    (is_ok x.0 ≡ false)
    × (service_module j x.1 ≡ service_module j manager)
    × (protocol_module name x.1 ≡ protocol_module name manager)

abbrev pub Registered : MessageManager → Result ProtocolError ℕ × MessageManager → ℕ → Name → Type 0
Registered manager x j name =
    (m : MessageModule) × (p : ℕ) × (x.0 ≡ ok p)
    × (module_at (some p) x.1 ≡ some m)
    × (service_module m.m_service_id manager ≡ none)
    × (protocol_module m.m_protocol_type manager ≡ none)
    × (service_module j x.1 ≡ (if j == m.m_service_id then some m else service_module j manager))
    × (protocol_module name x.1 ≡ (
        if same name_before name m.m_protocol_type then some m else protocol_module name manager))

-- For a manager whose maps are sorted and lead to the modules of their keys, and whose modules
-- have their names in order: load_module, on every document, either gives no module and leaves
-- what the manager has for a service id and for a protocol type; or it gives one whose service id
-- and protocol type the manager had no module for, and what the manager then has for a service id
-- or a protocol type is the new module if it is the module's own, and what it was before
-- otherwise.
pub load_module-refines :
    (texts : ValueText) (document : Document) (manager : MessageManager) (j : ℕ) (name : Name)
    → IsIndexed manager
    → Unchanged manager (load_module texts document manager) j name
      ⊎ Registered manager (load_module texts document manager) j name
load_module-refines texts document manager j name i =
    elim (load_module-cases texts document manager) [
      | inl e ↦ inl (e.1, ap (service_module j) e.0, ap (protocol_module name) e.0)
      | inr (m, o, e, f, g) ↦ inr (
        m,
        length manager.m_modules,
        ap (λ x. x.0) e,
        ap (λ x. module_at (some (length manager.m_modules)) x.1) e
            ∙ get_elem?-last (λ (x : MessageModule). tt {0}) manager.m_modules m,
        ap (λ o. module_at o manager) f,
        ap (λ o. module_at o manager) g,
        ap (λ x. service_module j x.1) e ∙ service_module-with_module m manager j i f,
        ap (λ x. protocol_module name x.1) e ∙ protocol_module-with_module m manager name i g,
      )
    ]
