-- ===== src/Dml/Record/Lookup.antt =====
-- What a record finds after a field was added.
use libki.Common.{
  ◌≡◌, ◌≢◌, refl, ap, ◌∙◌, List, [], ◌∷◌, ◌++◌, none, some, Bool, true, false, length, get_elem?,
}
use Prim.Native.String.{String}
use text.Mathlib.Text.{◌==◌ as str_eq}
use text.Mathlib.TextEquality.{eq_iff}
use libki.Dml.Field.{FieldType, default_value, is_type}
use libki.Dml.Record.{
  DmlField, DmlRecord, lookup, insert, field_at, add_field, push_field, get_field, get_field_of,
  has_field_of,
}

module _ {ℓ} {A : Type ℓ} where
  get_elem?-last : (xs : List A) (x : A) → get_elem? (xs ++ (x ∷ [])) (length xs) ≡ some x
  get_elem?-last [] x = refl
  get_elem?-last (y ∷ xs) x = get_elem?-last xs x

pub str_eq_self : (k : String) → str_eq k k ≡ true
str_eq_self k = (eq_iff k k).1 refl

pub str_eq_other : (j k : String) → j ≢ k → str_eq j k ≡ false
str_eq_other j k ne = elim-bool (str_eq j k) refl
  where
    elim-bool : (b : Bool) → str_eq j k ≡ b → b ≡ false
    elim-bool false e = refl
    elim-bool true e = absurd (ne ((eq_iff j k).0 e))

is_type-default : (t : FieldType) → is_type t (default_value t) ≡ true
is_type-default FieldType.byt = refl
is_type-default FieldType.ubyt = refl
is_type-default FieldType.shrt = refl
is_type-default FieldType.ushrt = refl
is_type-default FieldType.int = refl
is_type-default FieldType.uint = refl
is_type-default FieldType.str = refl
is_type-default FieldType.wstr = refl
is_type-default FieldType.flt = refl
is_type-default FieldType.dbl = refl
is_type-default FieldType.gid = refl

-- The field that add_field makes.
abbrev pub made : FieldType → String → Bool → DmlField
made t name transferable = record {
  m_name = name;
  m_transferable = transferable;
  m_value = default_value t;
}

added :
    (t : FieldType) (name : String) (transferable : Bool) (r : DmlRecord)
    → lookup name r.m_field_map ≡ none
    → add_field t name transferable r ≡ (
      some (length r.m_fields),
      record {
        m_fields = r.m_fields ++ (made t name transferable ∷ []);
        m_field_map = (name, length r.m_fields) ∷ r.m_field_map;
      },
    )
unfolding add_field push_field insert
added t name transferable r new = rw (add_field, new, push_field, insert, new) refl

found :
    (t : FieldType) (name : String) (transferable : Bool) (r : DmlRecord)
    → get_field_of t name (record {
      m_fields = r.m_fields ++ (made t name transferable ∷ []);
      m_field_map = (name, length r.m_fields) ∷ r.m_field_map;
    })
      ≡ some (length r.m_fields)
unfolding get_field_of has_field_of lookup
found t name transferable r =
    rw
      (
        get_field_of,
        has_field_of,
        str_eq_self name,
        get_elem?-last r.m_fields (made t name transferable),
        is_type-default t,
      )
      refl

-- If a record has no field of a name, then after add_field of that name and a type, get_field of
-- the name and the type gives the new last field, which has the name, the transferability asked
-- for and the type's default value, and get_field of every other name gives what it gave before.
pub get_field_of-add_field :
    (t : FieldType) (name : String) (transferable : Bool) (r : DmlRecord)
    → get_field name r ≡ none
    → (get_field_of t name (add_field t name transferable r).1 ≡ some (length r.m_fields))
      × (field_at (length r.m_fields) (add_field t name transferable r).1
          ≡ some (made t name transferable))
      × ((other : String)
          → name ≢ other
          → get_field other (add_field t name transferable r).1 ≡ get_field other r)
unfolding get_field lookup
get_field_of-add_field t name transferable r new =
    let e = added t name transferable r new in
    (
      ap (λ x. get_field_of t name (x.1)) e ∙ found t name transferable r,
      ap (λ x. field_at (length r.m_fields) (x.1)) e
          ∙ get_elem?-last r.m_fields (made t name transferable),
      λ other ne. ap (λ x. get_field other (x.1)) e ∙ rw (str_eq_other name other ne) refl,
    )
