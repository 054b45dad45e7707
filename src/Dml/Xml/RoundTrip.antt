-- ===== src/Dml/Xml/RoundTrip.antt =====
-- A record reads back from its XML form.
use libki.Common.{
  ◌≡◌, ◌≢◌, ◌⊎◌, inl, inr, refl, sym, arith, List, [], ◌∷◌, none, some, Bool, true, false,
  if◌then◌else◌,
}
use Prim.Native.String.{String}
use text.Mathlib.Text.{◌==◌ as str_eq}
use text.Mathlib.TextEquality.{eq_iff}
use libki.Dml.Bytes.{done}
use libki.Dml.Field.{FieldType, FieldValue, type_of, default_value, get_type_name}
use libki.Dml.Record
use libki.Dml.Record.{DmlField, DmlRecord, lookup, insert, push_field, add_all}
use libki.Dml.Record.Lookup.{str_eq_self, str_eq_other}
use libki.Dml.Xml.{
  ValueText, c_str, first_attribute, read_attributes, type_named, put_field, field_as_xml,
  field_from_xml, create_from_xml, fields_as_xml, as_xml, read_children, from_xml,
}

type_named-get_type_name : (t : FieldType) → type_named (get_type_name t) ≡ some t
unfolding type_named get_type_name
type_named-get_type_name FieldType.byt = refl
type_named-get_type_name FieldType.ubyt = refl
type_named-get_type_name FieldType.shrt = refl
type_named-get_type_name FieldType.ushrt = refl
type_named-get_type_name FieldType.int = refl
type_named-get_type_name FieldType.uint = refl
type_named-get_type_name FieldType.str = refl
type_named-get_type_name FieldType.wstr = refl
type_named-get_type_name FieldType.flt = refl
type_named-get_type_name FieldType.dbl = refl
type_named-get_type_name FieldType.gid = refl

-- No later field has the name.
abbrev pub IsNew : String → List DmlField → Type 0
IsNew name [] = Unit {0}
IsNew name (f ∷ fs) = (name ≢ f.m_name) × IsNew name fs

abbrev pub AreDistinct : List DmlField → Type 0
AreDistinct [] = Unit {0}
AreDistinct (f ∷ fs) = IsNew f.m_name fs × AreDistinct fs

-- No name has a NUL.
abbrev pub AreNamed : List DmlField → Type 0
AreNamed [] = Unit {0}
AreNamed (f ∷ fs) = (c_str f.m_name ≡ f.m_name) × AreNamed fs

-- None of the fields is in the record.
abbrev AllMissing : List DmlField → DmlRecord → Type 0
AllMissing [] r = Unit {0}
AllMissing (f ∷ fs) r = (lookup f.m_name r.m_field_map ≡ none) × AllMissing fs r

lookup-push_field :
    (k : String) (f : DmlField) (r : DmlRecord)
    → k ≢ f.m_name
    → lookup k r.m_field_map ≡ none
    → lookup k (push_field f r).m_field_map ≡ none
unfolding push_field insert lookup
lookup-push_field k f r ne e = ground (arith, e, eq_iff f.m_name k)

AllMissing-push_field :
    (f : DmlField) (fs : List DmlField) (r : DmlRecord)
    → IsNew f.m_name fs
    → AllMissing fs r
    → AllMissing fs (push_field f r)
AllMissing-push_field f [] r n a = tt
AllMissing-push_field f (g ∷ fs) r n a =
    (lookup-push_field g.m_name f r (λ e. n.0 (sym e)) a.0, AllMissing-push_field f fs r n.1 a.1)

AllMissing-empty : (fs : List DmlField) → AllMissing fs Record.empty
unfolding Record.empty lookup
AllMissing-empty [] = tt
AllMissing-empty (f ∷ fs) = (refl, AllMissing-empty fs)

module _ (texts : ValueText) where
  open texts use {format, parse}

  -- Up to its first NUL, the text of the value is not empty and means the value, or it is empty and
  -- the value is the type's default.
  abbrev pub HasText : FieldValue → Type 0
  HasText v =
      ((c_str (format v) ≢ "") × (parse (type_of v) (c_str (format v)) ≡ v))
      ⊎ ((c_str (format v) ≡ "") × (default_value (type_of v) ≡ v))

  abbrev pub AllHaveText : List DmlField → Type 0
  AllHaveText [] = Unit {0}
  AllHaveText (f ∷ fs) = HasText f.m_value × AllHaveText fs

  attributes_lem :
      (t : FieldType) (b : Bool)
      → read_attributes t
          (record { name = "TYPE"; value = get_type_name t }
            ∷ (if b then [] else record { name = "NOXFER"; value = "TRUE" } ∷ []))
          true
        ≡ done b
  unfolding read_attributes
  attributes_lem t true = rw (str_eq_self (get_type_name t)) refl
  attributes_lem t false = rw (str_eq_self (get_type_name t)) refl

  value_back :
      (v : FieldValue)
      → HasText v
      → (if str_eq (c_str (format v)) ""
          then default_value (type_of v)
          else parse (type_of v) (c_str (format v)))
        ≡ v
  value_back v (inl (ne, e)) = rw (str_eq_other (c_str (format v)) "" ne) e
  value_back v (inr (e, d)) = rw e d

  create_lem :
      (f : DmlField)
      → HasText f.m_value
      → c_str f.m_name ≡ f.m_name
      → create_from_xml texts (field_as_xml texts f) ≡ done f
  unfolding create_from_xml field_as_xml first_attribute field_from_xml
  create_lem f h n =
      rw
        (
          create_from_xml,
          type_named-get_type_name (type_of f.m_value),
          field_from_xml,
          attributes_lem (type_of f.m_value) f.m_transferable,
          value_back f.m_value h,
          n,
        )
        refl

  read_children_lem :
      (fs : List DmlField) (r : DmlRecord)
      → AllHaveText fs
      → AreNamed fs
      → AreDistinct fs
      → AllMissing fs r
      → read_children texts (fields_as_xml texts fs) r ≡ (add_all fs r, none)
  unfolding read_children fields_as_xml add_all put_field field_as_xml push_field
  read_children_lem [] r h n d a = refl
  read_children_lem (f ∷ fs) r h n d a =
      rw (read_children, create_lem f h.0 n.0, put_field, a.0)
        (read_children_lem fs (push_field f r) h.1 n.1 d.1 (AllMissing-push_field f fs r d.0 a.1))

  -- For texts of values and a record with fields of different names without a NUL, in which the
  -- text of each value, up to its first NUL, is not empty and means the value, or is empty and
  -- the value is its type's default: from_xml of an empty record on the node that as_xml makes of
  -- the record ends without an exception and gives a copy of the record.
  pub from_xml-as_xml :
      (r : DmlRecord)
      → AllHaveText r.m_fields
      → AreNamed r.m_fields
      → AreDistinct r.m_fields
      → from_xml texts (as_xml texts r) Record.empty ≡ (Record.copy r, none)
  unfolding from_xml as_xml Record.copy
  from_xml-as_xml r h n d =
      read_children_lem r.m_fields Record.empty h n d (AllMissing-empty r.m_fields)
