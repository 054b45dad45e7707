-- ===== src/Examples/Properties.antt =====
-- pclass at concrete inputs.
use libki.Common.{◌≡◌, ◌⊎◌, refl, [], ◌∷◌, true}
use libki.Map.{find}
use libki.Map.Names.{Name, name_before}
use libki.Pclass.EnumType.{EnumType, add_element, has_element_named}
use libki.Pclass.EnumType.Lookup.{IsConsistent, add_element-IsConsistent}
use libki.Pclass.Enum.{Enum}
use libki.Pclass.Enum.Names.{KnowsName, element_name-set_value_named}
use libki.Pclass.PropertyList.{Property, PropertyList}
use libki.Pclass.PropertyList.Lookup.{IsIndexedList, Refused, Added, add_property-cases}

abbrev fire : Name
fire = 0x46 ∷ []

abbrev ice : Name
ice = 0x49 ∷ []

abbrev schools : EnumType
schools = record {
  m_name = 0x53 ∷ [];
  m_elements = record { m_name = ice; m_value = 7 } ∷ record { m_name = fire; m_value = 9 } ∷ [];
  m_element_name_lookup = (fire, 1) ∷ (ice, 0) ∷ [];
  m_element_value_lookup = (7, 0) ∷ (9, 1) ∷ [];
}

schools-IsConsistent : IsConsistent schools
unfolding name_before find
schools-IsConsistent = record {
  names_sorted = ((refl, tt), (tt, tt));
  values_sorted = ((refl, tt), (tt, tt));
  names = (refl, (refl, tt));
  values = (refl, (refl, tt));
  found = (refl, (refl, tt));
}

add_element-IsConsistent_example : IsConsistent (add_element (0x47 ∷ []) 8 schools).1
add_element-IsConsistent_example =
    add_element-IsConsistent (0x47 ∷ []) 8 schools schools-IsConsistent

abbrev school : Enum
school = record { m_type = schools; m_value = 7 }

fire_is_there : has_element_named fire schools ≡ true
unfolding has_element_named find name_before
fire_is_there = refl

element_name-set_value_named_example : KnowsName fire school
element_name-set_value_named_example =
    element_name-set_value_named fire school schools-IsConsistent fire_is_there

abbrev level : Property
level = record { m_name = 0x4c ∷ []; m_full_hash = 1000 }

abbrev levels : PropertyList
levels = record {
  m_properties = level ∷ [];
  m_property_name_lookup = (0x4c ∷ [], 0) ∷ [];
  m_property_hash_lookup = (1000, 0) ∷ [];
}

levels-IsIndexedList : IsIndexedList levels
levels-IsIndexedList = record {
  names_sorted = (tt, tt);
  hashes_sorted = (tt, tt);
  names = (refl, tt);
  hashes = (refl, tt);
}

abbrev bonus : Property
bonus = record { m_name = 0x42 ∷ []; m_full_hash = 2000 }

add_property-cases_example :
    Refused bonus levels ⊎ ((l' : PropertyList) × Added bonus levels l' (0x42 ∷ []) 1000)
add_property-cases_example = add_property-cases bonus levels (0x42 ∷ []) 1000 levels-IsIndexedList
