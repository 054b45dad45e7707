-- ===== src/Pclass/Enum/Names.antt =====
-- An enum that is set by a name has this name.
use libki.Common.{
  ℕ, ◌≡◌, refl, ap, ap₂, sym, subst, ◌∙◌, arith, List, [], ◌∷◌, Option, none, some, some-injective,
  Bool, true, false, not, ◌==◌, if◌then◌else◌, get_elem?,
}
use libki.Common.Result.{ok, deref, ◌>>=◌}
use libki.Map.{find, same}
use libki.Map.Names.{Name, name_before}
use libki.Map.Keyed.{key_of, find-IsKeyed}
use libki.Map.Orders.{name_before-IsOrder}
use libki.Pclass.EnumType.{
  Element, pointed, is_some, has_element_named, get_element_named, get_element_valued,
}
use libki.Pclass.EnumType.Lookup.{IsConsistent, AllFound, by_value, none_ne_some}
use libki.Pclass.Enum.{Enum, set_value_named, element_name, equals_name}

find-by_value :
    (ts : List Element) (values : List (ℕ × ℕ)) (names : List (Name × ℕ)) (name : Name) (p : ℕ)
    → AllFound ts values names
    → find name_before name names ≡ some p
    → by_value values (get_elem? ts p) ≡ some p
unfolding find
find-by_value ts values [] name p a e = cc
find-by_value ts values ((j, q) ∷ names) name p a e =
    at (same name_before name j) e (find-by_value ts values names name p a.1)
  where
    at :
        (b : Bool)
        → (if b then some q else find name_before name names) ≡ some p
        → (find name_before name names ≡ some p → by_value values (get_elem? ts p) ≡ some p)
        → by_value values (get_elem? ts p) ≡ some p
    at true f g = subst (λ x. by_value values (get_elem? ts x) ≡ some x) (some-injective q p f) a.0
    at false f g = g f

-- What set_value_named, element_name and equals_name do with an element of the name.
abbrev pub KnowsName : Name → Enum → Type 0
KnowsName name e =
    (e' : Enum) × (set_value_named name e ≡ ok e')
    × (element_name e' ≡ ok name)
    × (equals_name name e' ≡ ok true)

module _ (name : Name) (e : Enum) (c : IsConsistent e.m_type) where
  at_element :
      (p : ℕ) (y : Element)
      → find name_before name e.m_type.m_element_name_lookup ≡ some p
      → get_elem? e.m_type.m_elements p ≡ some y
      → KnowsName name e
  unfolding set_value_named element_name equals_name get_element_named get_element_valued
      has_element_named
  at_element p y f g = (
    record e { m_value = y.m_value },
    ap (λ r. r >>= λ x. ok (record e { m_value = x.m_value })) named,
    ap (λ r. r >>= λ x. ok x.m_name) valued ∙ ap ok right_name,
    ap₂ (λ o r. if not (is_some o) then ok false else (r >>= λ x. ok (y.m_value == x.m_value))) f
          named
        ∙ ap ok (same_value y.m_value),
  )
    where
      named : pointed e.m_type (find name_before name e.m_type.m_element_name_lookup) ≡ ok y
      named = ap (pointed e.m_type) f ∙ ap deref g

      valued : pointed e.m_type (by_value e.m_type.m_element_value_lookup (some y)) ≡ ok y
      valued =
          ap (λ o. pointed e.m_type (by_value e.m_type.m_element_value_lookup o)) (sym g)
          ∙ ap (pointed e.m_type) (
              find-by_value e.m_type.m_elements e.m_type.m_element_value_lookup
                e.m_type.m_element_name_lookup name p c.found f)
          ∙ ap deref g

      right_name : y.m_name ≡ name
      right_name = some-injective y.m_name name (
          ap (key_of (λ (x : Element). x.m_name)) (sym g)
          ∙ find-IsKeyed (λ (x : Element). x.m_name) name_before name_before-IsOrder
              e.m_type.m_elements name p e.m_type.m_element_name_lookup c.names f)

      same_value : (v : ℕ) → (v == v) ≡ true
      same_value v = ground arith

  at_position :
      (p : ℕ) → find name_before name e.m_type.m_element_name_lookup ≡ some p → KnowsName name e
  at_position p f = at (get_elem? e.m_type.m_elements p) refl
    where
      at : (o : Option Element) → get_elem? e.m_type.m_elements p ≡ o → KnowsName name e
      at (some y) g = at_element p y f g
      at none g = absurd (
          none_ne_some (
            ap (by_value e.m_type.m_element_value_lookup) (sym g)
            ∙ find-by_value e.m_type.m_elements e.m_type.m_element_value_lookup
                e.m_type.m_element_name_lookup name p c.found f))

  -- For an enum whose type is consistent (its lookups are sorted and lead to the elements of
  -- their keys, and what is found by a name is found by its value) and has an element of a name:
  -- set_value by the name returns an enum whose conversion to a string gives the name, and which
  -- is equal to the name.
  pub element_name-set_value_named : has_element_named name e.m_type ≡ true → KnowsName name e
  unfolding has_element_named
  element_name-set_value_named h = at (find name_before name e.m_type.m_element_name_lookup) refl h
    where
      at :
          (o : Option ℕ)
          → find name_before name e.m_type.m_element_name_lookup ≡ o
          → is_some o ≡ true
          → KnowsName name e
      at none f g = cc
      at (some p) f g = at_position p f
