-- ===== src/Message/Module/Sorting.antt =====
-- MessageModule::sort_lookup numbers the templates by the order of their names.
use libki.Common.{
  ℕ, zero, suc, ◌+◌, ◌%◌, ◌≤◌, ◌<◌, ◌≡◌, refl, ap, sym, ◌∙◌, arith, List, [], ◌∷◌, ◌++◌,
  append_assoc, append-nil, none, some, false, ltb, ◌==◌, length, get_elem?,
}
use libki.Common.Result.{ok, throw}
use libki.Control.{exceeds_limit}
use libki.Map.{find, insert}
use libki.Map.Orders.{ltb-IsOrder}
use libki.Map.Names.{Name}
use libki.Map.Laws.{AllBefore, insert_last}
use libki.Message.Template.{MessageTemplate}
use libki.Message.Module.{MessageModule, sort_loop, sort_lookup, set_type_at}

-- The map of types that numbers a map of names from `n`.
unfoldable pub numbered : ℕ → List (Name × ℕ) → List (ℕ × ℕ)
numbered n [] = []
numbered n ((name, p) ∷ names) = (n, p) ∷ numbered (n + 1) names

-- The templates when the names have their numbers.
unfoldable pub typed : ℕ → List (Name × ℕ) → List MessageTemplate → List MessageTemplate
typed n [] templates = templates
typed n ((name, p) ∷ names) templates = typed (n + 1) names (set_type_at p n templates)

AllBefore-append :
    (n p : ℕ) (m : List (ℕ × ℕ)) → AllBefore ltb n m → AllBefore ltb (n + 1) (m ++ ((n, p) ∷ []))
AllBefore-append n p [] a = (ground arith, tt)
AllBefore-append n p ((j, v) ∷ m) a = (ground arith, AllBefore-append n p m a.1)

sort_loop_lem :
    (names : List (Name × ℕ)) (n : ℕ) (m : MessageModule)
    → n + length names < 256
    → AllBefore ltb n m.m_message_type_map
    → sort_loop names n m ≡ (
      ok tt,
      record m {
        m_templates = typed n names m.m_templates;
        m_message_type_map = m.m_message_type_map ++ numbered n names;
      },
    )
unfolding sort_loop typed numbered
sort_loop_lem [] n m h a =
    ap (λ types. (ok tt, record m { m_message_type_map = types }))
      (sym (append-nil m.m_message_type_map))
sort_loop_lem ((name, p) ∷ names) n m h a =
    rw (insert_last ltb ltb-IsOrder n p m.m_message_type_map a, next_is, not_zero)
      (sort_loop_lem names (n + 1)
          (record m {
            m_templates = set_type_at p n m.m_templates;
            m_message_type_map = m.m_message_type_map ++ ((n, p) ∷ []);
          })
          (omega arith) (AllBefore-append n p m.m_message_type_map a)
        ∙ ap
            (λ types. (
              ok tt,
              record m {
                m_templates = typed (n + 1) names (set_type_at p n m.m_templates);
                m_message_type_map = types;
              },
            ))
            (append_assoc m.m_message_type_map ((n, p) ∷ []) (numbered (n + 1) names)))
  where
    next_is : (n + 1) % 256 ≡ n + 1
    next_is = omega arith

    not_zero : (n + 1 == 0) ≡ false
    not_zero = ground arith

-- Behind the last number the loop throws.
sort_loop_throws :
    (names : List (Name × ℕ)) (n : ℕ) (m : MessageModule)
    → n < 256
    → 256 ≤ n + length names
    → (sort_loop names n m).0 ≡ throw exceeds_limit
unfolding sort_loop
sort_loop_throws [] n m small h = absurd (omega arith)
sort_loop_throws ((name, p) ∷ names) n m small h = ground (
  arith,
  sort_loop_throws names (n + 1) (record m {
    m_templates = set_type_at p n m.m_templates;
    m_message_type_map = insert ltb n p m.m_message_type_map;
  }),
)

-- sort_lookup gives the positions of the names their numbers from 1 on.
pub sort_lookup_lem :
    (m : MessageModule)
    → length m.m_message_name_map < 255
    → sort_lookup m ≡ (
      ok tt,
      record m {
        m_templates = typed 1 m.m_message_name_map m.m_templates;
        m_message_type_map = numbered 1 m.m_message_name_map;
      },
    )
unfolding sort_lookup
sort_lookup_lem m h =
    sort_loop_lem m.m_message_name_map 1 (record m { m_message_type_map = [] }) (omega arith) tt

-- For a module of 255 names or more, sort_lookup throws EXCEEDS_LIMIT.
pub sort_lookup-too_many :
    (m : MessageModule)
    → 255 ≤ length m.m_message_name_map
    → (sort_lookup m).0 ≡ throw exceeds_limit
unfolding sort_lookup
sort_lookup-too_many m h =
    sort_loop_throws m.m_message_name_map 1 (record m { m_message_type_map = [] }) (omega arith)
      (omega arith)

pub find-numbered :
    (names : List (Name × ℕ)) (n i : ℕ)
    → find ltb (n + i) (numbered n names)
      ≡ elim (get_elem? names i) [ none ↦ none | some e ↦ some (e.1) ]
unfolding numbered find
find-numbered [] n i = refl
find-numbered ((name, p) ∷ names) n zero = ground arith
find-numbered ((name, p) ∷ names) n (suc i) = ground (arith, find-numbered names (n + 1) i)
