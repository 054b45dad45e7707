-- ===== src/Pclass/Object.antt =====
-- PropertyClass and IProperty of pclass: objects with properties, whose values may be objects again.
-- A property holds values of a primitive or an enum type, or pointers to objects of a class.
use libki.Common.{ℕ, suc, List, [], ◌∷◌, Bool, true, ◌==◌, if◌then◌else◌, length}
use libki.Common.Result.{Result, ok, throw}
use libki.Map.Names.{Name}
use libki.Pclass.EnumType
use libki.Pclass.EnumType.{RuntimeError, runtime_error}
use libki.Pclass.Primitive
use libki.Pclass.Primitive.{Primitive, ValueOf}

-- IClassType: its hash and those of its base classes, the nearest first. Types are compared by
-- address, and the type system has one type for each hash.
pub record ClassType : Type 0 where
  pub m_hash : ℕ
  pub m_base_classes : List ℕ

unfoldable inherits_from : ℕ → List ℕ → ℕ → Bool
inherits_from hash [] type_hash = hash == type_hash
inherits_from hash (base ∷ bases) type_hash =
    let further = inherits_from base bases type_hash in if hash == type_hash then true else further

unfoldable pub inherits : ClassType → ℕ → Bool
unfolding inherits_from
inherits c type_hash = inherits_from c.m_hash c.m_base_classes type_hash

-- The type of a property that holds values.
pub data ValueType : Type 0 where
  primitive : Primitive → ValueType
  enum : EnumType.EnumType → ValueType

abbrev pub Stored : ValueType → Type 0
Stored (primitive p) = ValueOf p
Stored (enum t) = ℕ

-- Type::is_byte_aligned, which EnumType does not override.
unfoldable pub is_byte_aligned : ValueType → Bool
unfolding Primitive.is_byte_aligned
is_byte_aligned (primitive p) = Primitive.is_byte_aligned p
is_byte_aligned (enum t) = true

-- IProperty: m_name, m_full_hash, m_flags, whether it is a VectorProperty, and whether it is that or
-- an array.
pub record PropertyInfo : Type 0 where
  pub m_name : Name
  pub m_full_hash : ℕ
  pub m_flags : ℕ
  pub is_dynamic : Bool
  pub is_array : Bool

mutual
  -- A PropertyClass pointer: of the object, its type and its properties.
  pub data Pointer : Type 0 where
    null : Pointer
    object : ClassType → Properties → Pointer

  pub data Properties : Type 0 where
    no_properties : Properties
    property : PropertyInfo → Elements → Properties → Properties

  -- What a property holds; a property of pointers has the hash of its class.
  pub data Elements : Type 0 where
    values : (t : ValueType) → List (Stored t) → Elements
    objects : ℕ → Pointers → Elements

  pub data Pointers : Type 0 where
    no_pointers : Pointers
    next_pointer : Pointer → Pointers → Pointers

abbrev pub pointer_count : Pointers → ℕ
pointer_count no_pointers = 0
pointer_count (next_pointer x xs) = suc (pointer_count xs)

unfoldable pub get_element_count : Elements → ℕ
get_element_count (values t xs) = length xs
get_element_count (objects c xs) = pointer_count xs

-- What the elements are, without the elements.
pub data ElementKind : Type 0 where
  of_type : ValueType → ElementKind
  of_class : ℕ → ElementKind

abbrev pub kind_of : Elements → ElementKind
kind_of (values t xs) = of_type t
kind_of (objects c xs) = of_class c

-- set_object, for an element that is a pointer: null, or an object of the class or one derived.
unfoldable pub set_object : ℕ → Pointer → Result RuntimeError Pointer
unfolding inherits
set_object type_hash null = ok null
set_object type_hash (object c ps) =
    if inherits c type_hash then ok (object c ps) else throw runtime_error
