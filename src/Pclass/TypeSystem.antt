-- ===== src/Pclass/TypeSystem.antt =====
-- TypeSystem of pclass: types, found by name and by hash.
pub mod Lookup
use libki.Common.{
  ℕ, List, [], ◌∷◌, ◌++◌, Option, none, some, Bool, ltb, if◌then◌else◌, length, get_elem?,
}
use libki.Common.Result.{Result, ok, throw, deref, ◌>>=◌}
use libki.Map.{find, assign}
use libki.Map.Names.{Name, name_before}
use libki.Pclass.EnumType.{RuntimeError, runtime_error, is_some}
use libki.Pclass.Object.{ClassType, Properties, Pointer, object}

-- What the system asks of a Type. A class has the properties of an object that its constructor
-- makes; the other types have no instances.
pub record DefinedType : Type 0 where
  pub m_name : Name
  pub m_hash : ℕ
  pub m_instance : Option (ClassType × Properties)

-- A pointer to a type is its position in m_types.
pub record TypeSystem : Type 0 where
  pub m_types : List DefinedType
  pub m_type_name_lookup : List (Name × ℕ)
  pub m_type_hash_lookup : List (ℕ × ℕ)

unfoldable pub type_system : TypeSystem
type_system = record { m_types = []; m_type_name_lookup = []; m_type_hash_lookup = [] }

unfoldable pub has_type_named : Name → TypeSystem → Bool
has_type_named name ts = is_some (find name_before name ts.m_type_name_lookup)

unfoldable pub has_type_hashed : ℕ → TypeSystem → Bool
has_type_hashed hash ts = is_some (find ltb hash ts.m_type_hash_lookup)

-- The type that a lookup gives.
abbrev pub pointed : TypeSystem → Option ℕ → Result RuntimeError DefinedType
pointed ts none = throw runtime_error
pointed ts (some p) = deref (get_elem? ts.m_types p)

unfoldable pub get_type_named : Name → TypeSystem → Result RuntimeError DefinedType
get_type_named name ts = pointed ts (find name_before name ts.m_type_name_lookup)

unfoldable pub get_type_hashed : ℕ → TypeSystem → Result RuntimeError DefinedType
get_type_hashed hash ts = pointed ts (find ltb hash ts.m_type_hash_lookup)

unfoldable pub define_type : DefinedType → TypeSystem → Result RuntimeError (Unit {0}) × TypeSystem
unfolding has_type_named has_type_hashed
define_type t ts =
    if has_type_named t.m_name ts
    then (throw runtime_error, ts)
    else if has_type_hashed t.m_hash ts
    then (throw runtime_error, ts)
    else (
      ok tt,
      record {
        m_types = ts.m_types ++ (t ∷ []);
        m_type_name_lookup = assign name_before t.m_name (length ts.m_types) ts.m_type_name_lookup;
        m_type_hash_lookup = assign ltb t.m_hash (length ts.m_types) ts.m_type_hash_lookup;
      },
    )

abbrev pub instance_of : Option (ClassType × Properties) → Result RuntimeError Pointer
instance_of none = throw runtime_error
instance_of (some (c, ps)) = ok (object c ps)

-- Type::instantiate and its override in ClassType.
unfoldable pub instantiate_type : DefinedType → Result RuntimeError Pointer
instantiate_type t = instance_of t.m_instance

-- TypeSystem::instantiate.
unfoldable pub instantiate : Name → TypeSystem → Result RuntimeError Pointer
unfolding get_type_named instantiate_type
instantiate name ts = get_type_named name ts >>= instantiate_type
