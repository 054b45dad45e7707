-- ===== src/Pclass/EnumType.antt =====
-- EnumType of pclass: elements, found by name and by value.
pub mod Lookup
use libki.Common.{
  ℕ, List, [], ◌∷◌, ◌++◌, Option, none, some, Bool, true, false, ltb, if◌then◌else◌, length,
  get_elem?,
}
use libki.Common.Result.{Result, ok, throw, deref}
use libki.Map.{find, assign}
use libki.Map.Names.{Name, name_before}

-- ki::runtime_error.
pub data RuntimeError : Type 0 where
  runtime_error : RuntimeError

pub record Element : Type 0 where
  pub m_name : Name
  pub m_value : ℕ

-- A pointer to an element is its position in m_elements.
pub record EnumType : Type 0 where
  pub m_name : Name
  pub m_elements : List Element
  pub m_element_name_lookup : List (Name × ℕ)
  pub m_element_value_lookup : List (ℕ × ℕ)

unfoldable pub enum_type : Name → EnumType
enum_type name = record {
  m_name = name;
  m_elements = [];
  m_element_name_lookup = [];
  m_element_value_lookup = [];
}

abbrev pub is_some : Option ℕ → Bool
is_some none = false
is_some (some p) = true

unfoldable pub has_element_named : Name → EnumType → Bool
has_element_named name t = is_some (find name_before name t.m_element_name_lookup)

unfoldable pub has_element_valued : ℕ → EnumType → Bool
has_element_valued value t = is_some (find ltb value t.m_element_value_lookup)

-- The element that a lookup gives.
abbrev pub pointed : EnumType → Option ℕ → Result RuntimeError Element
pointed t none = throw runtime_error
pointed t (some p) = deref (get_elem? t.m_elements p)

unfoldable pub get_element_named : Name → EnumType → Result RuntimeError Element
get_element_named name t = pointed t (find name_before name t.m_element_name_lookup)

unfoldable pub get_element_valued : ℕ → EnumType → Result RuntimeError Element
get_element_valued value t = pointed t (find ltb value t.m_element_value_lookup)

unfoldable pub add_element : Name → ℕ → EnumType → Result RuntimeError (Unit {0}) × EnumType
unfolding has_element_named has_element_valued
add_element name value t =
    if has_element_named name t
    then (throw runtime_error, t)
    else if has_element_valued value t
    then (throw runtime_error, t)
    else (
      ok tt,
      record t {
        m_elements = t.m_elements ++ (record { m_name = name; m_value = value } ∷ []);
        m_element_name_lookup =
            assign name_before name (length t.m_elements) t.m_element_name_lookup;
        m_element_value_lookup = assign ltb value (length t.m_elements) t.m_element_value_lookup;
      },
    )
