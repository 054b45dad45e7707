-- ===== src/Dml/Xml.antt =====
-- The XML form of fields and records: as_xml and from_xml of dml/Field, dml/FieldBase and dml/Record.
-- A node of rapidxml is a record of what the code reads of it, whose texts are those that its pointers
-- lead to, without a NUL. The text of a value (get_value_string and
-- set_value_from_string, which format and scan through iostreams) is a parameter.
pub mod RoundTrip
use libki.Common.{
  ℕ, List, [], ◌∷◌, Option, none, some, Bool, true, false, not, ◌==◌, set, if◌then◌else◌,
}
use Prim.Native.Char.{code}
use Prim.Native.String.{String}
use text.Mathlib.Text.{◌==◌ as str_eq}
use libki.Dml.Bytes.{DmlError, value_error, Try, done, raise}
use libki.Dml.Field.{FieldType, FieldValue, type_of, is_type, default_value, get_type_name}
use libki.Dml.Record.{DmlField, DmlRecord, lookup, field_at, push_field, set_value}

pub record XmlAttribute : Type 0 where
  pub name : String
  pub value : String

-- A node inside a record.
pub record XmlField : Type 0 where
  pub is_element : Bool
  pub name : String
  pub attributes : List XmlAttribute
  pub value : String

-- A node whose children may be fields.
pub record XmlRecord : Type 0 where
  pub name : String
  pub children : List XmlField

-- get_value_string, and set_value_from_string on a field of a type.
pub record ValueText : Type 0 where
  pub format : FieldValue → String
  pub parse : FieldType → String → FieldValue

-- What allocate_string copies of c_str(): the text in front of the first NUL.
unfoldable pub c_str : String → String
c_str String.[] = String.[]
c_str (String.◌∷◌ c s) = let rest = c_str s in if code c == 0 then String.[] else String.◌∷◌ c rest

-- first_attribute.
unfoldable pub first_attribute : String → List XmlAttribute → Option String
first_attribute k [] = none
first_attribute k (a ∷ attributes) =
    if str_eq a.name k then some a.value else first_attribute k attributes

-- The loop of Field::from_xml over the attributes: is the field transferable?
unfoldable pub read_attributes : FieldType → List XmlAttribute → Bool → Try DmlError Bool
read_attributes t [] transferable = done transferable
read_attributes t (a ∷ attributes) transferable =
    let after_type = read_attributes t attributes transferable in
    let after_noxfer = read_attributes t attributes (not (str_eq a.value "TRUE")) in
    if str_eq a.name "TYPE"
    then (if str_eq a.value (get_type_name t) then after_type else raise value_error)
    else if str_eq a.name "NOXFER"
    then after_noxfer
    else raise value_error

-- The chain of tests in create_from_xml.
unfoldable pub type_named : String → Option FieldType
type_named s =
    if str_eq s "BYT"
    then some FieldType.byt
    else if str_eq s "UBYT"
    then some FieldType.ubyt
    else if str_eq s "SHRT"
    then some FieldType.shrt
    else if str_eq s "USHRT"
    then some FieldType.ushrt
    else if str_eq s "INT"
    then some FieldType.int
    else if str_eq s "UINT"
    then some FieldType.uint
    else if str_eq s "STR"
    then some FieldType.str
    else if str_eq s "WSTR"
    then some FieldType.wstr
    else if str_eq s "FLT"
    then some FieldType.flt
    else if str_eq s "DBL"
    then some FieldType.dbl
    else if str_eq s "GID"
    then some FieldType.gid
    else none

-- The case of an old field with the name of a new one.
unfoldable pub replace_field : ℕ → DmlField → DmlRecord → DmlRecord
replace_field p f r = elim (field_at p r) [
  | none ↦ r
  | some old ↦
      if is_type (type_of f.m_value) old.m_value
      then set_value p f.m_value r
      else record r { m_fields = set r.m_fields p f }
]

-- What Record::from_xml does with a field that it has read.
unfoldable pub put_field : DmlField → DmlRecord → DmlRecord
put_field f r = elim (lookup f.m_name r.m_field_map) [
  | none ↦ push_field f r
  | some p ↦ replace_field p f r
]

module _ (texts : ValueText) where
  open texts use {format, parse}

  -- Field::as_xml.
  unfoldable pub field_as_xml : DmlField → XmlField
  unfolding c_str
  field_as_xml f = record {
    is_element = true;
    name = c_str f.m_name;
    attributes =
        record { name = "TYPE"; value = get_type_name (type_of f.m_value) }
        ∷ (if f.m_transferable then [] else record { name = "NOXFER"; value = "TRUE" } ∷ []);
    value = c_str (format f.m_value);
  }

  -- Field::from_xml on a new field of a type.
  abbrev with_value : FieldType → XmlField → Try DmlError Bool → Try DmlError DmlField
  with_value t node (raise e) = raise e
  with_value t node (done transferable) = done (record {
    m_name = node.name;
    m_transferable = transferable;
    m_value = if str_eq node.value "" then default_value t else parse t node.value;
  })

  unfoldable pub field_from_xml : FieldType → XmlField → Try DmlError DmlField
  unfolding read_attributes
  field_from_xml t node = with_value t node (read_attributes t node.attributes true)

  -- FieldBase::create_from_xml.
  unfoldable pub create_from_xml : XmlField → Try DmlError DmlField
  unfolding first_attribute type_named field_from_xml
  create_from_xml node = elim (first_attribute "TYPE" node.attributes) [
    | none ↦ raise value_error
    | some name ↦ elim (type_named name) [
      | none ↦ raise value_error
      | some t ↦ field_from_xml t node
    ]
  ]

  unfoldable pub fields_as_xml : List DmlField → List XmlField
  fields_as_xml [] = []
  fields_as_xml (f ∷ fs) = field_as_xml f ∷ fields_as_xml fs

  -- Record::as_xml.
  unfoldable pub as_xml : DmlRecord → XmlRecord
  as_xml r = record { name = "RECORD"; children = fields_as_xml r.m_fields }

  -- Record::from_xml: the record, and what was thrown.
  unfoldable pub read_children : List XmlField → DmlRecord → DmlRecord × Option DmlError
  read_children [] r = (r, none)
  read_children (node ∷ nodes) r = elim (node.is_element) [
    | false ↦ read_children nodes r
    | true ↦ elim (create_from_xml node) [
      | raise e ↦ (r, some e)
      | done f ↦ read_children nodes (put_field f r)
    ]
  ]

  unfoldable pub from_xml : XmlRecord → DmlRecord → DmlRecord × Option DmlError
  from_xml node r =
      if str_eq node.name "RECORD" then read_children node.children r else (r, some value_error)
