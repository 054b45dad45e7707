-- ===== src/Dml/Record.antt =====
-- dml::Record: named fields in order, with a map from names to them.
-- A pointer to a field is its index in `m_fields`; fields are never taken out of a record.
pub mod RoundTrip
pub mod Lookup
pub mod Copy
use libki.Common.{
  ℕ, zero, suc, ◌+◌, List, [], ◌∷◌, ◌++◌, Option, none, some, Bool, true, false, ◌&&◌,
  if◌then◌else◌, length, get_elem?, set,
}
use Prim.Native.String.{String}
use text.Mathlib.Text.{◌==◌ as str_eq}
use libki.Dml.Bytes.{Reader, DmlError, done, ◌>>=◌, return}
use libki.Dml.Field.{FieldType, FieldValue, type_of, is_type, default_value}
use libki.Dml.Field

pub record DmlField : Type 0 where
  pub m_name : String
  pub m_transferable : Bool
  pub m_value : FieldValue

pub record DmlRecord : Type 0 where
  pub m_fields : List DmlField
  pub m_field_map : List (String × ℕ)

module _ {V : Type 0} where
  unfoldable pub lookup : String → List (String × V) → Option V
  lookup k [] = none
  lookup k ((j, v) ∷ m) = if str_eq j k then some v else lookup k m

  -- std::map::insert keeps the value of a key that is there.
  unfoldable pub insert : String → V → List (String × V) → List (String × V)
  insert k v m = elim (lookup k m) [ none ↦ (k, v) ∷ m | some w ↦ m ]

unfoldable pub empty : DmlRecord
empty = record { m_fields = []; m_field_map = [] }

abbrev pub is_some {ℓ} : {A : Type ℓ} → Option A → Bool
is_some none = false
is_some (some a) = true

unfoldable pub has_field : String → DmlRecord → Bool
has_field name r = is_some (lookup name r.m_field_map)

-- get_field, where `none` is the null pointer.
unfoldable pub get_field : String → DmlRecord → Option ℕ
get_field name r = lookup name r.m_field_map

abbrev pub field_at : ℕ → DmlRecord → Option DmlField
field_at p r = get_elem? r.m_fields p

-- has_field<ValueT> and get_field<ValueT>.
unfoldable pub has_field_of : FieldType → String → DmlRecord → Bool
has_field_of t name r = elim (lookup name r.m_field_map) [
  | none ↦ false
  | some p ↦ elim (field_at p r) [ none ↦ false | some f ↦ is_type t f.m_value ]
]

unfoldable pub get_field_of : FieldType → String → DmlRecord → Option ℕ
unfolding has_field_of
get_field_of t name r = if has_field_of t name r then lookup name r.m_field_map else none

-- add_field(FieldBase *)
unfoldable pub push_field : DmlField → DmlRecord → DmlRecord
unfolding insert
push_field f r = record {
  m_fields = r.m_fields ++ (f ∷ []);
  m_field_map = insert f.m_name (length r.m_fields) r.m_field_map;
}

-- add_field<ValueT>(name, transferable): the field's pointer and the record.
unfoldable pub add_field : FieldType → String → Bool → DmlRecord → Option ℕ × DmlRecord
add_field t name transferable r = elim (lookup name r.m_field_map) [
  | some p ↦ elim (field_at p r) [
    | none ↦ (none, r)
    | some f ↦ (if is_type t f.m_value then some p else none, r)
  ]
  | none ↦ (
    some (length r.m_fields),
    push_field (record { m_name = name; m_transferable = transferable; m_value = default_value t })
        r,
  )
]

-- Field<ValueT>::set_value through a pointer.
unfoldable pub set_value : ℕ → FieldValue → DmlRecord → DmlRecord
set_value p v r = elim (field_at p r) [
  | none ↦ r
  | some f ↦ record r { m_fields = set r.m_fields p (record f { m_value = v }) }
]

unfoldable pub get_field_count : DmlRecord → ℕ
get_field_count r = length r.m_fields

-- Record(const Record &): a clone of each field is added.
unfoldable pub add_all : List DmlField → DmlRecord → DmlRecord
add_all [] r = r
add_all (f ∷ fs) r = add_all fs (push_field f r)

unfoldable pub copy : DmlRecord → DmlRecord
copy r = add_all r.m_fields empty

unfoldable pub write_fields : List DmlField → List ℕ
write_fields [] = []
write_fields (f ∷ fs) =
    (if f.m_transferable then Field.write_to f.m_value else []) ++ write_fields fs

unfoldable pub write_to : DmlRecord → List ℕ
write_to r = write_fields r.m_fields

unfoldable pub read_field : DmlField → Reader DmlError DmlField
read_field f =
    if f.m_transferable
    then (do v ← Field.read_from (type_of f.m_value); return (record f { m_value = v }))
    else return f

unfoldable pub read_fields : List DmlField → Reader DmlError (List DmlField)
read_fields [] = return []
read_fields (f ∷ fs) = do g ← read_field f; gs ← read_fields fs; return (g ∷ gs)

unfoldable pub read_from : DmlRecord → Reader DmlError DmlRecord
read_from r = do fs ← read_fields r.m_fields; return (record r { m_fields = fs })

unfoldable pub size_fields : List DmlField → ℕ
size_fields [] = 0
size_fields (f ∷ fs) = (if f.m_transferable then Field.get_size f.m_value else 0) + size_fields fs

unfoldable pub get_size : DmlRecord → ℕ
get_size r = size_fields r.m_fields
