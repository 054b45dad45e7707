-- ===== src/Pclass.antt =====
-- The directory pclass: enums and property lists.
pub mod EnumType
pub mod Primitive
pub mod Object
pub mod TypeSystem
pub mod Enum
pub mod PropertyList
pub mod Hash
pub mod Found
