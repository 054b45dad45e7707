-- ===== src/Message/Module/Types.antt =====
-- The types that sort_lookup gives to the templates of a module.
use libki.Common.{
  ℕ, zero, suc, ◌+◌, ◌<◌, ◌≡◌, ◌≢◌, refl, ap, sym, subst, ◌∙◌, arith, List, [], ◌∷◌,
  get_elem?-set_self, get_elem?-set_ne, get_elem?-bound, Option, none, some, some-injective, ltb,
  length, get_elem?, set,
}
use libki.Common.Result.{ok}
use libki.Map.{find}
use libki.Map.Names.{Name, name_before, name_before_irrefl}
use libki.Map.Keyed.{key_of, IsKeyed, AllKeyed}
use libki.Map.Laws.{IsSorted, AllAfter}
use libki.Message.Template.{MessageTemplate}
use libki.Message.Module.{MessageModule, sort_lookup, set_type_at, type_put, template_of_type}
use libki.Message.Module.Sorting.{numbered, typed, sort_lookup_lem, find-numbered}

abbrev pub name_of : Option MessageTemplate → Option Name
name_of = key_of (λ t. t.m_name)

-- The template at the position carries the name; so do those of a map of names.
abbrev pub IsNamed : List MessageTemplate → Name → ℕ → Type 0
IsNamed = IsKeyed (λ t. t.m_name)

abbrev pub AllNamed : List MessageTemplate → List (Name × ℕ) → Type 0
AllNamed = AllKeyed (λ t. t.m_name)

get_elem?-set_type_at :
    (templates : List MessageTemplate) (p n : ℕ) (t : MessageTemplate)
    → get_elem? templates p ≡ some t
    → get_elem? (set_type_at p n templates) p ≡ some (record t { m_type = n })
get_elem?-set_type_at templates p n t e =
    ap (λ o. get_elem? (type_put p n o templates) p) e
    ∙ get_elem?-set_self templates p (record t { m_type = n }) (get_elem?-bound templates p t e)

get_elem?-set_type_at_ne :
    (templates : List MessageTemplate) (p q n : ℕ)
    → p ≢ q
    → get_elem? (set_type_at p n templates) q ≡ get_elem? templates q
get_elem?-set_type_at_ne templates p q n ne = put_ne (get_elem? templates p)
  where
    put_ne :
        (o : Option MessageTemplate)
        → get_elem? (type_put p n o templates) q ≡ get_elem? templates q
    put_ne none = refl
    put_ne (some t) = get_elem?-set_ne templates (record t { m_type = n }) ne

set_same_name :
    (templates : List MessageTemplate) (p n q : ℕ) (t : MessageTemplate)
    → some t ≡ get_elem? templates p
    → name_of (get_elem? (set templates p (record t { m_type = n })) q)
      ≡ name_of (get_elem? templates q)
set_same_name [] p n q t e = refl
set_same_name (x ∷ templates) zero n zero t e = ap name_of e
set_same_name (x ∷ templates) zero n (suc q) t e = refl
set_same_name (x ∷ templates) (suc p) n zero t e = refl
set_same_name (x ∷ templates) (suc p) n (suc q) t e = set_same_name templates p n q t e

-- A new type changes no name.
pub name_of-set_type_at :
    (templates : List MessageTemplate) (p n q : ℕ)
    → name_of (get_elem? (set_type_at p n templates) q) ≡ name_of (get_elem? templates q)
name_of-set_type_at templates p n q = put_same (get_elem? templates p) refl
  where
    put_same :
        (o : Option MessageTemplate)
        → o ≡ get_elem? templates p
        → name_of (get_elem? (type_put p n o templates) q) ≡ name_of (get_elem? templates q)
    put_same none e = refl
    put_same (some t) e = set_same_name templates p n q t e

pub set_type_at-AllNamed :
    (templates : List MessageTemplate) (p n : ℕ) (names : List (Name × ℕ))
    → AllNamed templates names
    → AllNamed (set_type_at p n templates) names
set_type_at-AllNamed templates p n [] a = tt
set_type_at-AllNamed templates p n ((name, q) ∷ names) a =
    (name_of-set_type_at templates p n q ∙ a.0, set_type_at-AllNamed templates p n names a.1)

-- No name of the list stands at the position.
abbrev AllElsewhere : ℕ → List (Name × ℕ) → Type 0
AllElsewhere q [] = Unit {0}
AllElsewhere q ((name, p) ∷ names) = (p ≢ q) × AllElsewhere q names

get_elem?-typed_elsewhere :
    (names : List (Name × ℕ)) (n q : ℕ) (templates : List MessageTemplate)
    → AllElsewhere q names
    → get_elem? (typed n names templates) q ≡ get_elem? templates q
unfolding typed
get_elem?-typed_elsewhere [] n q templates a = refl
get_elem?-typed_elsewhere ((name, p) ∷ names) n q templates a =
    get_elem?-typed_elsewhere names (n + 1) q (set_type_at p n templates) a.1
    ∙ get_elem?-set_type_at_ne templates p q n a.0

AllAfter-elsewhere :
    (templates : List MessageTemplate) (name : Name) (q : ℕ) (names : List (Name × ℕ))
    → IsNamed templates name q
    → AllNamed templates names
    → AllAfter name_before name names
    → AllElsewhere q names
AllAfter-elsewhere templates name q [] i a b = tt
AllAfter-elsewhere templates name q ((j, p) ∷ names) i a b =
    (other, AllAfter-elsewhere templates name q names i a.1 b.1)
  where
    other : p ≢ q
    other e = grind (arith, name_before_irrefl j, a.0, b.0)

elsewhere_ne :
    (q : ℕ) (names : List (Name × ℕ)) (i : ℕ) (e : Name × ℕ)
    → AllElsewhere q names
    → get_elem? names i ≡ some e
    → q ≢ e.1
elsewhere_ne q [] i e a h = cc
elsewhere_ne q ((name, p) ∷ names) zero e a h =
    λ k. a.0 (ap (λ x. x.1) (some-injective _ _ h) ∙ sym k)
elsewhere_ne q ((name, p) ∷ names) (suc i) e a h = elsewhere_ne q names i e a.1 h

-- The template under the i-th name gets the i-th number.
get_elem?-typed :
    (names : List (Name × ℕ)) (n i : ℕ) (templates : List MessageTemplate) (e : Name × ℕ)
    (t : MessageTemplate)
    → IsSorted name_before names
    → AllNamed templates names
    → get_elem? names i ≡ some e
    → get_elem? templates e.1 ≡ some t
    → get_elem? (typed n names templates) e.1 ≡ some (record t { m_type = n + i })
unfolding typed
get_elem?-typed [] n i templates e t s a h k = cc
get_elem?-typed ((name, p) ∷ names) n zero templates e t s a h k =
    subst
      (λ q.
        get_elem? templates q ≡ some t
        → get_elem? (typed (n + 1) names (set_type_at p n templates)) q
          ≡ some (record t { m_type = n + zero }))
      (ap (λ x. x.1) (some-injective _ _ h))
      (λ k'.
        get_elem?-typed_elsewhere names (n + 1) p (set_type_at p n templates)
          (AllAfter-elsewhere templates name p names a.0 a.1 s.0)
        ∙ get_elem?-set_type_at templates p n t k'
        ∙ ap (λ x. some (record t { m_type = x })) (omega arith))
      k
get_elem?-typed ((name, p) ∷ names) n (suc i) templates e t s a h k =
    get_elem?-typed names (n + 1) i (set_type_at p n templates) e t s.1
      (set_type_at-AllNamed templates p n names a.1) h
      (get_elem?-set_type_at_ne templates p e.1 n
          (elsewhere_ne p names i e (AllAfter-elsewhere templates name p names a.0 a.1 s.0) h)
        ∙ k)
    ∙ ap (λ x. some (record t { m_type = x })) (omega arith)

-- A module whose names are sorted and stand at templates of these names.
pub record IsNameOrdered (m : MessageModule) : Type 0 where
  pub sorted : IsSorted name_before m.m_message_name_map
  pub named : AllNamed m.m_templates m.m_message_name_map

-- For a module of fewer than 255 names that are sorted and lead to templates of these names:
-- sort_lookup returns, and the template of the name with the index i in alphabetical order has
-- the type i + 1 and is found by it.
pub sort_lookup-numbers :
    (m : MessageModule) (i : ℕ) (e : Name × ℕ) (t : MessageTemplate)
    → IsNameOrdered m
    → length m.m_message_name_map < 255
    → get_elem? m.m_message_name_map i ≡ some e
    → get_elem? m.m_templates e.1 ≡ some t
    → ((sort_lookup m).0 ≡ ok tt)
      × (template_of_type (1 + i) (sort_lookup m).1 ≡ some e.1)
      × (get_elem? (sort_lookup m).1.m_templates e.1 ≡ some (record t { m_type = 1 + i }))
unfolding template_of_type
sort_lookup-numbers m i e t o small h k =
    rw (sort_lookup_lem m small)
      (refl, found, get_elem?-typed m.m_message_name_map 1 i m.m_templates e t o.sorted o.named h k)
  where
    found : find ltb (1 + i) (numbered 1 m.m_message_name_map) ≡ some e.1
    found =
        find-numbered m.m_message_name_map 1 i
        ∙ ap (λ o. elim o [ none ↦ none | some x ↦ some (x.1) ]) h
