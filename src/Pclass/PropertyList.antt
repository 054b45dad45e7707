-- ===== src/Pclass/PropertyList.antt =====
-- PropertyList of pclass: properties, found by index, by name and by hash.
pub mod Lookup
use libki.Common.{
  ℕ, List, [], ◌∷◌, ◌++◌, Option, none, some, Bool, true, false, ltb, if◌then◌else◌, length,
  get_elem?,
}
use libki.Common.Int.{ℤ, pos, negsuc}
use libki.Common.Result.{Result, ok, throw, deref}
use libki.Map.{find, assign}
use libki.Map.Names.{Name, name_before}
use libki.Pclass.EnumType.{RuntimeError, runtime_error, is_some}

-- What the list asks of a property: get_name and get_full_hash.
pub record Property : Type 0 where
  pub m_name : Name
  pub m_full_hash : ℕ

-- A pointer to a property is its position in m_properties.
pub record PropertyList : Type 0 where
  pub m_properties : List Property
  pub m_property_name_lookup : List (Name × ℕ)
  pub m_property_hash_lookup : List (ℕ × ℕ)

unfoldable pub property_list : PropertyList
property_list = record {
  m_properties = [];
  m_property_name_lookup = [];
  m_property_hash_lookup = [];
}

unfoldable pub get_property_count : PropertyList → ℕ
get_property_count l = length l.m_properties

unfoldable pub has_property_named : Name → PropertyList → Bool
has_property_named name l = is_some (find name_before name l.m_property_name_lookup)

unfoldable pub has_property_hashed : ℕ → PropertyList → Bool
has_property_hashed hash l = is_some (find ltb hash l.m_property_hash_lookup)

-- By index, where a negative one is out of range.
unfoldable pub get_property : ℤ → PropertyList → Result RuntimeError Property
get_property (negsuc n) l = throw runtime_error
get_property (pos n) l =
    if ltb n (length l.m_properties)
    then deref (get_elem? l.m_properties n)
    else throw runtime_error

-- The property that a lookup gives.
abbrev pub pointed : PropertyList → Option ℕ → Result RuntimeError Property
pointed l none = throw runtime_error
pointed l (some p) = deref (get_elem? l.m_properties p)

unfoldable pub get_property_named : Name → PropertyList → Result RuntimeError Property
get_property_named name l = pointed l (find name_before name l.m_property_name_lookup)

unfoldable pub get_property_hashed : ℕ → PropertyList → Result RuntimeError Property
get_property_hashed hash l = pointed l (find ltb hash l.m_property_hash_lookup)

unfoldable pub add_property :
    Property → PropertyList → Result RuntimeError (Unit {0}) × PropertyList
unfolding has_property_named has_property_hashed
add_property prop l =
    if has_property_named prop.m_name l
    then (throw runtime_error, l)
    else if has_property_hashed prop.m_full_hash l
    then (throw runtime_error, l)
    else (
      ok tt,
      record {
        m_properties = l.m_properties ++ (prop ∷ []);
        m_property_name_lookup =
            assign name_before prop.m_name (length l.m_properties) l.m_property_name_lookup;
        m_property_hash_lookup =
            assign ltb prop.m_full_hash (length l.m_properties) l.m_property_hash_lookup;
      },
    )
