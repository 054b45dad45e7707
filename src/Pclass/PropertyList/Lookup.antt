-- ===== src/Pclass/PropertyList/Lookup.antt =====
-- What a property list finds after a property was added.
use libki.Common.{
  ℕ, ◌+◌, ◌≡◌, ◌⊎◌, inl, inr, refl, ap, ap₂, ◌∙◌, arith, [], ◌∷◌, ◌++◌, Option, none, some, true,
  false, ◌||◌, ltb, ◌==◌, if◌then◌else◌, length, length-append,
}
use libki.Common.Int.{pos}
use libki.Common.Result.{Result, ok, throw, deref}
use libki.Map.{find, assign, same}
use libki.Map.Names.{Name, name_before}
use libki.Map.Laws.{IsSorted}
use libki.Map.Keyed.{AllKeyed, get_elem?-last}
use libki.Pclass.Found.{same-ltb, assign-IsSorted, assign-AllKeyed, found-assign}
use libki.Map.Orders.{ltb-IsOrder, name_before-IsOrder}
use libki.Pclass.EnumType.{RuntimeError, runtime_error, is_some}
use libki.Pclass.PropertyList.{
  Property, PropertyList, property_list, pointed, add_property, get_property, get_property_count,
  get_property_named, get_property_hashed, has_property_named, has_property_hashed,
}

-- The lookups are sorted and lead to the properties of their keys.
pub record IsIndexedList (l : PropertyList) : Type 0 where
  pub names_sorted : IsSorted name_before l.m_property_name_lookup
  pub hashes_sorted : IsSorted ltb l.m_property_hash_lookup
  pub names : AllKeyed (λ (x : Property). x.m_name) l.m_properties l.m_property_name_lookup
  pub hashes : AllKeyed (λ (x : Property). x.m_full_hash) l.m_properties l.m_property_hash_lookup

pub property_list-IsIndexedList : IsIndexedList property_list
unfolding property_list
property_list-IsIndexedList = record {
  names_sorted = tt;
  hashes_sorted = tt;
  names = tt;
  hashes = tt;
}

-- The list with one more property.
abbrev pub with_property : Property → PropertyList → PropertyList
with_property prop l = record {
  m_properties = l.m_properties ++ (prop ∷ []);
  m_property_name_lookup =
      assign name_before prop.m_name (length l.m_properties) l.m_property_name_lookup;
  m_property_hash_lookup =
      assign ltb prop.m_full_hash (length l.m_properties) l.m_property_hash_lookup;
}

module _ (prop : Property) (l : PropertyList) (i : IsIndexedList l)
    (new_name : find name_before prop.m_name l.m_property_name_lookup ≡ none)
    (new_hash : find ltb prop.m_full_hash l.m_property_hash_lookup ≡ none) where
  with_property-IsIndexedList : IsIndexedList (with_property prop l)
  with_property-IsIndexedList = record {
    names_sorted =
        assign-IsSorted (λ (x : Property). x.m_name) name_before name_before-IsOrder l.m_properties
          prop l.m_property_name_lookup i.names_sorted i.names new_name;
    hashes_sorted =
        assign-IsSorted (λ (x : Property). x.m_full_hash) ltb ltb-IsOrder l.m_properties prop
          l.m_property_hash_lookup i.hashes_sorted i.hashes new_hash;
    names =
        assign-AllKeyed (λ (x : Property). x.m_name) name_before name_before-IsOrder l.m_properties
          prop l.m_property_name_lookup i.names_sorted i.names new_name;
    hashes =
        assign-AllKeyed (λ (x : Property). x.m_full_hash) ltb ltb-IsOrder l.m_properties prop
          l.m_property_hash_lookup i.hashes_sorted i.hashes new_hash;
  }

  named_after :
      (j : Name)
      → get_property_named j (with_property prop l)
        ≡ (if same name_before j prop.m_name then ok prop else get_property_named j l)
  unfolding get_property_named
  named_after j =
      found-assign (λ (x : Property). x.m_name) name_before name_before-IsOrder l.m_properties prop
        l.m_property_name_lookup i.names_sorted i.names new_name j

  hashed_after :
      (h : ℕ)
      → get_property_hashed h (with_property prop l)
        ≡ (if h == prop.m_full_hash then ok prop else get_property_hashed h l)
  unfolding get_property_hashed
  hashed_after h =
      found-assign (λ (x : Property). x.m_full_hash) ltb ltb-IsOrder l.m_properties prop
        l.m_property_hash_lookup i.hashes_sorted i.hashes new_hash h
      ∙ ap (λ b. if b then ok prop else pointed l (find ltb h l.m_property_hash_lookup))
          (same-ltb h prop.m_full_hash)

  last_property : get_property (pos (length l.m_properties)) (with_property prop l) ≡ ok prop
  unfolding get_property
  last_property =
      rw (inside) (ap deref (get_elem?-last (λ (x : Property). x.m_name) l.m_properties prop))
    where
      inside : ltb (length l.m_properties) (length (l.m_properties ++ (prop ∷ []))) ≡ true
      inside = ground (arith, length-append l.m_properties (prop ∷ []))

-- A property is refused, and nothing changes.
abbrev pub Refused : Property → PropertyList → Type 0
Refused prop l =
    (add_property prop l ≡ (throw runtime_error, l))
    × ((has_property_named prop.m_name l || has_property_hashed prop.m_full_hash l) ≡ true)

-- Its name and its hash are new; it is the last one, and found by them; the others are found as
-- before.
abbrev pub Added : Property → PropertyList → PropertyList → Name → ℕ → Type 0
Added prop l l' j h =
    (add_property prop l ≡ (ok tt, l'))
    × ((has_property_named prop.m_name l || has_property_hashed prop.m_full_hash l) ≡ false)
    × IsIndexedList l'
    × (get_property_count l' ≡ get_property_count l + 1)
    × (get_property (pos (get_property_count l)) l' ≡ ok prop)
    × (get_property_named j l'
        ≡ (if same name_before j prop.m_name then ok prop else get_property_named j l))
    × (get_property_hashed h l'
        ≡ (if h == prop.m_full_hash then ok prop else get_property_hashed h l))

-- For a list whose lookups are sorted and lead to the properties of their keys: add_property
-- either throws and leaves the list, and the list has a property of the name or of the hash; or
-- it returns, the list had neither, stays so, has one property more, gives the new one for the
-- index that was its count, for its name and for its hash, and for every other name and hash what
-- it gave before.
pub add_property-cases :
    (prop : Property) (l : PropertyList) (j : Name) (h : ℕ)
    → IsIndexedList l
    → Refused prop l ⊎ ((l' : PropertyList) × Added prop l l' j h)
unfolding add_property has_property_named has_property_hashed get_property_count
add_property-cases prop l j h i =
    by_keys (find name_before prop.m_name l.m_property_name_lookup)
      (find ltb prop.m_full_hash l.m_property_hash_lookup) refl refl
  where
    choice : Option ℕ → Option ℕ → Result RuntimeError (Unit {0}) × PropertyList
    choice a b =
        if is_some a
        then (throw runtime_error, l)
        else if is_some b
        then (throw runtime_error, l)
        else (ok tt, with_property prop l)

    by_keys :
        (a b : Option ℕ)
        → find name_before prop.m_name l.m_property_name_lookup ≡ a
        → find ltb prop.m_full_hash l.m_property_hash_lookup ≡ b
        → Refused prop l ⊎ ((l' : PropertyList) × Added prop l l' j h)
    by_keys (some p) b e f = inl (
      ap₂ choice e f,
      ap (λ x. is_some x || is_some (find ltb prop.m_full_hash l.m_property_hash_lookup)) e,
    )
    by_keys none (some q) e f = inl (ap₂ choice e f, ap₂ (λ x y. is_some x || is_some y) e f)
    by_keys none none e f =
        let i' = with_property-IsIndexedList prop l i e f in
        inr (
          with_property prop l,
          (
            ap₂ choice e f,
            ap₂ (λ x y. is_some x || is_some y) e f,
            i',
            length-append l.m_properties (prop ∷ []),
            last_property prop l i e f,
            named_after prop l i e f j,
            hashed_after prop l i e f h,
          ),
        )
