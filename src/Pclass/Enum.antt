-- ===== src/Pclass/Enum.antt =====
-- Enum of pclass: a value of an enum type. The type is not changed while the value is there.
pub mod Names
pub mod Transfer
use libki.Common.{ℕ, Bool, true, false, not, ◌&&◌, ◌==◌, if◌then◌else◌}
use libki.Common.Result.{Result, ok, throw, fault, stuck, ◌>>=◌}
use libki.Map.Names.{Name}
use libki.Pclass.EnumType
use libki.Pclass.EnumType.{
  RuntimeError, runtime_error, Element, get_element_named, get_element_valued, has_element_named,
  has_element_valued,
}

pub record Enum : Type 0 where
  pub m_type : EnumType.EnumType
  pub m_value : ℕ

unfoldable pub set_value : ℕ → Enum → Result RuntimeError Enum
unfolding has_element_valued
set_value value e =
    if not (value == 0) && not (has_element_valued value e.m_type)
    then throw runtime_error
    else ok (record e { m_value = value })

-- The constructor by a value.
unfoldable pub enum_of : EnumType.EnumType → ℕ → Result RuntimeError Enum
unfolding set_value
enum_of t value = set_value value (record { m_type = t; m_value = 0 })

unfoldable pub set_value_named : Name → Enum → Result RuntimeError Enum
unfolding get_element_named
set_value_named name e =
    get_element_named name e.m_type >>= λ x. ok (record e { m_value = x.m_value })

-- The conversion to a string.
unfoldable pub element_name : Enum → Result RuntimeError Name
unfolding get_element_valued
element_name e = get_element_valued e.m_value e.m_type >>= λ x. ok x.m_name

-- The comparison with a string.
unfoldable pub equals_name : Name → Enum → Result RuntimeError Bool
unfolding has_element_named get_element_named
equals_name name e =
    if not (has_element_named name e.m_type)
    then ok false
    else (get_element_named name e.m_type >>= λ x. ok (e.m_value == x.m_value))
