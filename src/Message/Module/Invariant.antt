-- ===== src/Message/Module/Invariant.antt =====
-- The operations of a MessageModule keep its names in order, at the templates of these names.
use libki.Common.{
  ℕ, ◌+◌, ◌%◌, List, [], ◌∷◌, ◌++◌, Option, none, some, Bool, if_both, ltb, ◌==◌, length,
}
use libki.Common.Result.{Result, ok, throw}
use libki.Dml.Record.{DmlRecord}
use libki.Control.{ProtocolError}
use libki.Map.{insert}
use libki.Map.Names.{Name, name_before}
use libki.Map.Keyed.{AllKeyed-insert}
use libki.Map.Laws.{insert-IsSorted}
use libki.Message.Template.{MessageTemplate, byte_named, text_named}
use libki.Message.Module.{
  MessageModule, message_module, sort_loop, sort_lookup, set_type_at, then_return, append_template,
  append_ordered, name_or, add_message_template, template_of_type, template_of_name,
}
use libki.Map.Orders.{name_before-IsOrder}
use libki.Message.Module.Types.{IsNameOrdered, set_type_at-AllNamed}

-- The module at the end of an operation with a result.
abbrev pub EndsOrdered : {A : Type 0} → A × MessageModule → Type 0
EndsOrdered x = IsNameOrdered (x.1)

pub message_module-IsNameOrdered :
    (id : ℕ) (protocol : Name) → IsNameOrdered (message_module id protocol)
unfolding message_module
message_module-IsNameOrdered id protocol = record { sorted = tt; named = tt }

sort_loop-IsNameOrdered :
    (names : List (Name × ℕ)) (n : ℕ) (m : MessageModule)
    → IsNameOrdered m
    → IsNameOrdered (sort_loop names n m).1
unfolding sort_loop
sort_loop-IsNameOrdered [] n m o = o
sort_loop-IsNameOrdered ((name, p) ∷ names) n m o = if_both EndsOrdered ((n + 1) % 256 == 0) o' (
    sort_loop-IsNameOrdered names ((n + 1) % 256)
      (record m {
        m_templates = set_type_at p n m.m_templates;
        m_message_type_map = insert ltb n p m.m_message_type_map;
      })
      o')
  where
    o' : IsNameOrdered (record m {
      m_templates = set_type_at p n m.m_templates;
      m_message_type_map = insert ltb n p m.m_message_type_map;
    })
    o' = record {
      sorted = o.sorted;
      named = set_type_at-AllNamed m.m_templates p n m.m_message_name_map o.named;
    }

-- Sorting moves no name, also when it throws.
pub sort_lookup-IsNameOrdered :
    (m : MessageModule) → IsNameOrdered m → IsNameOrdered (sort_lookup m).1
unfolding sort_lookup
sort_lookup-IsNameOrdered m o =
    sort_loop-IsNameOrdered m.m_message_name_map 1 (record m { m_message_type_map = [] })
      (record { sorted = o.sorted; named = o.named })

then_return-IsNameOrdered :
    (p : ℕ) (x : Result ProtocolError (Unit {0}) × MessageModule)
    → IsNameOrdered x.1
    → IsNameOrdered (then_return p x).1
then_return-IsNameOrdered p (ok u, m) o = o
then_return-IsNameOrdered p (throw e, m) o = o
then_return-IsNameOrdered p (Result.fault, m) o = o
then_return-IsNameOrdered p (Result.stuck, m) o = o

append_template-IsNameOrdered :
    (name : Name) (type : ℕ) (r : DmlRecord) (auto_sort : Bool) (m : MessageModule)
    → IsNameOrdered m
    → IsNameOrdered (append_template name type r auto_sort m).1
unfolding append_template
append_template-IsNameOrdered name type r auto_sort m o =
    if_both EndsOrdered (type == 0)
      (if_both EndsOrdered auto_sort
        (then_return-IsNameOrdered (length m.m_templates) _ (sort_lookup-IsNameOrdered _ o')) o')
      (record { sorted = o'.sorted; named = o'.named })
  where
    t : MessageTemplate
    t = record { m_name = name; m_type = type; m_service_id = m.m_service_id; m_record = r }

    o' : IsNameOrdered (record m {
      m_templates = m.m_templates ++ (t ∷ []);
      m_message_name_map = insert name_before name (length m.m_templates) m.m_message_name_map;
    })
    o' = record {
      sorted =
          insert-IsSorted name_before name_before-IsOrder name (length m.m_templates)
            m.m_message_name_map o.sorted;
      named =
          AllKeyed-insert (λ (u : MessageTemplate). u.m_name) name_before m.m_templates t
            m.m_message_name_map o.named;
    }

append_ordered-IsNameOrdered :
    (name : Name) (order : Option ℕ) (r : DmlRecord) (auto_sort : Bool) (m : MessageModule)
    → IsNameOrdered m
    → IsNameOrdered (append_ordered name order r auto_sort m).1
append_ordered-IsNameOrdered name none r auto_sort m o =
    append_template-IsNameOrdered name 0 r auto_sort m o
append_ordered-IsNameOrdered name (some order) r auto_sort m o =
    if_both EndsOrdered (order == 0) o (by_type (template_of_type order m))
  where
    by_type :
        (x : Option ℕ)
        → IsNameOrdered
            (elim x as (λ y. Result ProtocolError (Option ℕ) × MessageModule) [
              | some p ↦ (ok none, m)
              | none ↦ append_template name order r auto_sort m
            ]).1
    by_type none = append_template-IsNameOrdered name order r auto_sort m o
    by_type (some p) = o

-- If the names of a module are sorted and lead to templates of these names, then so they are and
-- do after add_message_template, with every record or none, sorting or not, and also when it
-- refuses the template or throws.
pub add_message_template-IsNameOrdered :
    (name : Name) (r : Option DmlRecord) (auto_sort : Bool) (m : MessageModule)
    → IsNameOrdered m
    → IsNameOrdered (add_message_template name r auto_sort m).1
unfolding add_message_template
add_message_template-IsNameOrdered name none auto_sort m o = o
add_message_template-IsNameOrdered name (some r) auto_sort m o =
    by_name (template_of_name (name_or (text_named "_MsgName" r) name) m)
  where
    by_name :
        (x : Option ℕ)
        → IsNameOrdered
            (elim x as (λ y. Result ProtocolError (Option ℕ) × MessageModule) [
              | some p ↦ (ok (some p), m)
              | none ↦
                  append_ordered
                    (name_or (text_named "_MsgName" r) name)
                    (byte_named "_MsgOrder" r)
                    r
                    auto_sort
                    m
            ]).1
    by_name none =
        append_ordered-IsNameOrdered (name_or (text_named "_MsgName" r) name)
          (byte_named "_MsgOrder" r) r auto_sort m o
    by_name (some p) = o
