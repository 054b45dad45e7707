-- ===== src/Pclass/EnumType/Lookup.antt =====
-- An enum type finds its elements by name and by value, and gives the same element for both.
use libki.Common.{
  ℕ, ◌≡◌, refl, ap, ap₂, sym, ◌∙◌, arith, List, [], ◌∷◌, ◌++◌, Option, none, some, Bool, true,
  false, if_both, ltb, if◌then◌else◌, length, get_elem?,
}
use libki.Common.Result.{Result, ok, throw}
use libki.Map.{find, insert, assign, same}
use libki.Map.Names.{Name, name_before}
use libki.Map.Laws.{IsSorted, insert-IsSorted, find-insert, or_else, assign-insert, same-eq}
use libki.Map.Keyed.{AllKeyed, AllKeyed-insert, get_elem?-last, get_elem?-more}
use libki.Map.Orders.{ltb-IsOrder, name_before-IsOrder}
use libki.Pclass.EnumType.{
  EnumType, Element, RuntimeError, runtime_error, enum_type, add_element, has_element_named,
  has_element_valued, is_some,
}

-- The position under the value of an element.
abbrev pub by_value : List (ℕ × ℕ) → Option Element → Option ℕ
by_value values none = none
by_value values (some x) = find ltb x.m_value values

-- The elements of a map of names are found by their values.
abbrev pub AllFound : List Element → List (ℕ × ℕ) → List (Name × ℕ) → Type 0
AllFound ts values [] = Unit {0}
AllFound ts values ((k, p) ∷ names) =
    (by_value values (get_elem? ts p) ≡ some p) × AllFound ts values names

-- The lookups are sorted and lead to the elements of their keys, and what is found by a name is found
-- by its value.
pub record IsConsistent (t : EnumType) : Type 0 where
  pub names_sorted : IsSorted name_before t.m_element_name_lookup
  pub values_sorted : IsSorted ltb t.m_element_value_lookup
  pub names : AllKeyed (λ (x : Element). x.m_name) t.m_elements t.m_element_name_lookup
  pub values : AllKeyed (λ (x : Element). x.m_value) t.m_elements t.m_element_value_lookup
  pub found : AllFound t.m_elements t.m_element_value_lookup t.m_element_name_lookup

pub enum_type-IsConsistent : (name : Name) → IsConsistent (enum_type name)
unfolding enum_type
enum_type-IsConsistent name = record {
  names_sorted = tt;
  values_sorted = tt;
  names = tt;
  values = tt;
  found = tt;
}

pub none_ne_some : {p : ℕ} → none ≡ some p → ⊥
none_ne_some e = cc

self : (v : ℕ) → same ltb v v ≡ true
self v = ground arith

module _ (ts : List Element) (values : List (ℕ × ℕ)) (x : Element) where
  by_value-old :
      (p : ℕ)
      → IsSorted ltb values
      → find ltb x.m_value values ≡ none
      → by_value values (get_elem? ts p) ≡ some p
      → by_value (insert ltb x.m_value (length ts) values) (get_elem? (ts ++ (x ∷ [])) p) ≡ some p
  by_value-old p s free e = at (get_elem? ts p) refl e
    where
      at :
          (o : Option Element)
          → get_elem? ts p ≡ o
          → by_value values o ≡ some p
          → by_value (insert ltb x.m_value (length ts) values) (get_elem? (ts ++ (x ∷ [])) p)
            ≡ some p
      at none f g = cc
      at (some y) f g =
          ap (by_value (insert ltb x.m_value (length ts) values)) (get_elem?-more ts x y p f)
          ∙ find-insert ltb ltb-IsOrder x.m_value y.m_value (length ts) values s
          ∙ apart (same ltb y.m_value x.m_value) refl
        where
          apart :
              (b : Bool)
              → same ltb y.m_value x.m_value ≡ b
              → (if b
                  then some (or_else (find ltb x.m_value values) (length ts))
                  else find ltb y.m_value values)
                ≡ some p
          apart false h = g
          apart true h = absurd (
              none_ne_some (
                sym free
                ∙ ap (λ v. find ltb v values) (sym (same-eq ltb ltb-IsOrder y.m_value x.m_value h))
                ∙ g))

  by_value-new :
      IsSorted ltb values
      → find ltb x.m_value values ≡ none
      → by_value (insert ltb x.m_value (length ts) values) (get_elem? (ts ++ (x ∷ [])) (length ts))
        ≡ some (length ts)
  by_value-new s free =
      ap (by_value (insert ltb x.m_value (length ts) values))
        (get_elem?-last (λ (y : Element). y.m_name) ts x)
      ∙ find-insert ltb ltb-IsOrder x.m_value x.m_value (length ts) values s
      ∙ ap₂ (λ b o. if b then some (or_else o (length ts)) else find ltb x.m_value values)
          (self x.m_value) free

AllFound-old :
    (ts : List Element) (values : List (ℕ × ℕ)) (x : Element) (names : List (Name × ℕ))
    → IsSorted ltb values
    → find ltb x.m_value values ≡ none
    → AllFound ts values names
    → AllFound (ts ++ (x ∷ [])) (insert ltb x.m_value (length ts) values) names
AllFound-old ts values x [] s free a = tt
AllFound-old ts values x ((k, p) ∷ names) s free a =
    (by_value-old ts values x p s free a.0, AllFound-old ts values x names s free a.1)

insert-AllFound :
    (ts : List Element) (values : List (ℕ × ℕ)) (k : Name) (p : ℕ) (names : List (Name × ℕ))
    → by_value values (get_elem? ts p) ≡ some p
    → AllFound ts values names
    → AllFound ts values (insert name_before k p names)
unfolding insert
insert-AllFound ts values k p [] e a = (e, tt)
insert-AllFound ts values k p ((j, q) ∷ names) e a =
    if_both (AllFound ts values) (name_before k j) (e, a)
      (if_both (AllFound ts values) (name_before j k)
        (a.0, insert-AllFound ts values k p names e a.1) a)

-- A type with one more element, under keys that are new.
extended :
    (t : EnumType) (x : Element)
    → IsConsistent t
    → find name_before x.m_name t.m_element_name_lookup ≡ none
    → find ltb x.m_value t.m_element_value_lookup ≡ none
    → IsConsistent (record t {
      m_elements = t.m_elements ++ (x ∷ []);
      m_element_name_lookup =
          assign name_before x.m_name (length t.m_elements) t.m_element_name_lookup;
      m_element_value_lookup = assign ltb x.m_value (length t.m_elements) t.m_element_value_lookup;
    })
extended t x c new_name new_value =
    rw
      (
        assign-insert name_before x.m_name (length t.m_elements) t.m_element_name_lookup new_name,
        assign-insert ltb x.m_value (length t.m_elements) t.m_element_value_lookup new_value,
      )
      (record {
        names_sorted =
            insert-IsSorted name_before name_before-IsOrder x.m_name n t.m_element_name_lookup
              c.names_sorted;
        values_sorted =
            insert-IsSorted ltb ltb-IsOrder x.m_value n t.m_element_value_lookup c.values_sorted;
        names =
            AllKeyed-insert (λ (y : Element). y.m_name) name_before t.m_elements x
              t.m_element_name_lookup c.names;
        values =
            AllKeyed-insert (λ (y : Element). y.m_value) ltb t.m_elements x t.m_element_value_lookup
              c.values;
        found =
            insert-AllFound (t.m_elements ++ (x ∷ []))
              (insert ltb x.m_value n t.m_element_value_lookup) x.m_name n t.m_element_name_lookup
              (by_value-new t.m_elements t.m_element_value_lookup x c.values_sorted new_value)
              (AllFound-old t.m_elements t.m_element_value_lookup x t.m_element_name_lookup
                c.values_sorted new_value c.found);
      })
  where
    n : ℕ
    n = length t.m_elements

-- add_element, also when it throws, leaves a type whose lookups are sorted and lead to the
-- elements of their keys, and which finds by its value what it finds by a name, if it was such a
-- type before.
pub add_element-IsConsistent :
    (name : Name) (value : ℕ) (t : EnumType)
    → IsConsistent t
    → IsConsistent (add_element name value t).1
unfolding add_element has_element_named has_element_valued
add_element-IsConsistent name value t c =
    by_keys (find name_before name t.m_element_name_lookup)
      (find ltb value t.m_element_value_lookup) refl refl
  where
    x : Element
    x = record { m_name = name; m_value = value }

    after : EnumType
    after = record t {
      m_elements = t.m_elements ++ (x ∷ []);
      m_element_name_lookup = assign name_before name (length t.m_elements) t.m_element_name_lookup;
      m_element_value_lookup = assign ltb value (length t.m_elements) t.m_element_value_lookup;
    }

    choice : Option ℕ → Option ℕ → Result RuntimeError (Unit {0}) × EnumType
    choice a b =
        if is_some a
        then (throw runtime_error, t)
        else if is_some b
        then (throw runtime_error, t)
        else (ok tt, after)

    by_keys :
        (a b : Option ℕ)
        → find name_before name t.m_element_name_lookup ≡ a
        → find ltb value t.m_element_value_lookup ≡ b
        → IsConsistent (choice a b).1
    by_keys (some p) b e f = c
    by_keys none (some q) e f = c
    by_keys none none e f = extended t x c e f
