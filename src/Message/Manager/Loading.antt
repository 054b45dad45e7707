-- ===== src/Message/Manager/Loading.antt =====
-- What load_module leaves: a manager that finds its modules, old and new.
use libki.Common.{ℕ, ◌≡◌, ◌⊎◌, inl, inr, refl, List, [], ◌∷◌, ◌++◌, Option, none, some, ltb, length}
use libki.Common.Result.{Result, ok, throw}
use libki.Control.{ProtocolError, overwrites_lookup}
use libki.Map.{find, insert}
use libki.Map.Names.{name_before}
use libki.Map.Laws.{IsSorted, insert-IsSorted}
use libki.Map.Keyed.{AllKeyed, AllKeyed-insert}
use libki.Message.Module.{MessageModule}
use libki.Map.Orders.{ltb-IsOrder, name_before-IsOrder}
use libki.Message.Module.Types.{IsNameOrdered}
use libki.Message.Manager.{MessageManager, add_module, module_of_service, module_of_protocol}

abbrev pub AllOrdered : List MessageModule → Type 0
AllOrdered [] = Unit {0}
AllOrdered (m ∷ modules) = IsNameOrdered m × AllOrdered modules

-- The maps are sorted and lead to the modules of their keys, and these have their names in order.
pub record IsIndexed (manager : MessageManager) : Type 0 where
  pub services_sorted : IsSorted ltb manager.m_service_id_map
  pub protocols_sorted : IsSorted name_before manager.m_protocol_type_map
  pub services :
      AllKeyed (λ (m : MessageModule). m.m_service_id) manager.m_modules manager.m_service_id_map
  pub protocols :
      AllKeyed
        (λ (m : MessageModule). m.m_protocol_type)
        manager.m_modules
        manager.m_protocol_type_map
  pub modules_ordered : AllOrdered manager.m_modules

AllOrdered-append :
    (modules : List MessageModule) (m : MessageModule)
    → AllOrdered modules
    → IsNameOrdered m
    → AllOrdered (modules ++ (m ∷ []))
AllOrdered-append [] m a o = (o, tt)
AllOrdered-append (x ∷ modules) m a o = (a.0, AllOrdered-append modules m a.1 o)

-- The manager with one more module.
abbrev pub with_module : MessageModule → MessageManager → MessageManager
with_module m manager = record {
  m_modules = manager.m_modules ++ (m ∷ []);
  m_service_id_map = insert ltb m.m_service_id (length manager.m_modules) manager.m_service_id_map;
  m_protocol_type_map =
      insert name_before m.m_protocol_type (length manager.m_modules) manager.m_protocol_type_map;
}

pub with_module-IsIndexed :
    (m : MessageModule) (manager : MessageManager)
    → IsNameOrdered m
    → IsIndexed manager
    → IsIndexed (with_module m manager)
with_module-IsIndexed m manager o i = record {
  services_sorted =
      insert-IsSorted ltb ltb-IsOrder m.m_service_id (length manager.m_modules)
        manager.m_service_id_map i.services_sorted;
  protocols_sorted =
      insert-IsSorted name_before name_before-IsOrder m.m_protocol_type (length manager.m_modules)
        manager.m_protocol_type_map i.protocols_sorted;
  services =
      AllKeyed-insert (λ (x : MessageModule). x.m_service_id) ltb manager.m_modules m
        manager.m_service_id_map i.services;
  protocols =
      AllKeyed-insert (λ (x : MessageModule). x.m_protocol_type) name_before manager.m_modules m
        manager.m_protocol_type_map i.protocols;
  modules_ordered = AllOrdered-append manager.m_modules m i.modules_ordered o;
}

-- add_module refuses the module and changes nothing, or adds it.
pub add_module-cases :
    (m : MessageModule) (manager : MessageManager)
    → (add_module m manager ≡ (throw overwrites_lookup, manager))
      ⊎ ((add_module m manager ≡ (ok (length manager.m_modules), with_module m manager))
          × (module_of_service m.m_service_id manager ≡ none)
          × (module_of_protocol m.m_protocol_type manager ≡ none))
unfolding add_module module_of_service module_of_protocol
add_module-cases m manager =
    split (find ltb m.m_service_id manager.m_service_id_map)
      (find name_before m.m_protocol_type manager.m_protocol_type_map)
  where
    split :
        (x y : Option ℕ)
        → (elim x as (λ z. Result ProtocolError ℕ × MessageManager) [
          | some q ↦ (throw overwrites_lookup, manager)
          | none ↦ elim y as (λ z. Result ProtocolError ℕ × MessageManager) [
            | some q ↦ (throw overwrites_lookup, manager)
            | none ↦ (ok (length manager.m_modules), with_module m manager)
          ]
        ]
            ≡ (throw overwrites_lookup, manager))
          ⊎ ((elim x as (λ z. Result ProtocolError ℕ × MessageManager) [
            | some q ↦ (throw overwrites_lookup, manager)
            | none ↦ elim y as (λ z. Result ProtocolError ℕ × MessageManager) [
              | some q ↦ (throw overwrites_lookup, manager)
              | none ↦ (ok (length manager.m_modules), with_module m manager)
            ]
          ]
                ≡ (ok (length manager.m_modules), with_module m manager))
              × (x ≡ none)
              × (y ≡ none))
    split none none = inr (refl, refl, refl)
    split none (some q) = inl refl
    split (some q) y = inl refl
