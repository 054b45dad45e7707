-- ===== src/Dml/Record/RoundTrip.antt =====
-- A record reads back what a record with fields of the same kinds wrote.
use libki.Common.{
  ℕ, ◌+◌, ◌≡◌, refl, ap, ◌∙◌, arith, List, [], ◌∷◌, ◌++◌, append_assoc, Bool, true, false,
  if◌then◌else◌, length, length-append,
}
use Prim.Native.String.{String}
use libki.Io.{IoStream}
use libki.Io.Laws.{Offers, advance, advance-Offers}
use libki.Dml.Bytes.{done, bind_done}
use libki.Dml.Field
use libki.Dml.Field.{FieldValue, type_of}
use libki.Dml.Field.RoundTrip.{IsExact, read_from-write_to, length-write_to, advance-advance}
use libki.Dml.Record.{
  DmlField, DmlRecord, read_field, read_fields, write_fields, size_fields, read_from, write_to,
  get_size,
}

-- Field `f` is what field `t` may become by reading: all but the value of a transferable field is
-- the same.
pub record SameKind (t f : DmlField) : Type 0 where
  pub name : t.m_name ≡ f.m_name
  pub transferable : t.m_transferable ≡ f.m_transferable
  pub type : type_of t.m_value ≡ type_of f.m_value
  pub value : f.m_transferable ≡ false → t.m_value ≡ f.m_value

abbrev pub AllSameKind : List DmlField → List DmlField → Type 0
AllSameKind [] [] = Unit {0}
AllSameKind [] (f ∷ fs) = ⊥
AllSameKind (t ∷ ts) [] = ⊥
AllSameKind (t ∷ ts) (f ∷ fs) = SameKind t f × AllSameKind ts fs

abbrev pub AllExact : List DmlField → Type 0
AllExact [] = Unit {0}
AllExact (f ∷ fs) = (f.m_transferable ≡ true → IsExact f.m_value) × AllExact fs

abbrev field_bytes : DmlField → List ℕ
field_bytes f = if f.m_transferable then Field.write_to f.m_value else []

abbrev field_size : DmlField → ℕ
field_size f = if f.m_transferable then Field.get_size f.m_value else 0

length_if :
    (b : Bool) (v : FieldValue)
    → (b ≡ true → IsExact v)
    → length (if b then Field.write_to v else []) ≡ (if b then Field.get_size v else 0)
length_if true v exact = length-write_to v (exact refl)
length_if false v exact = refl

length-field_bytes :
    (f : DmlField)
    → (f.m_transferable ≡ true → IsExact f.m_value)
    → length (field_bytes f) ≡ field_size f
length-field_bytes f exact = length_if f.m_transferable f.m_value exact

advance-zero : (s : IoStream) → s ≡ advance 0 s
advance-zero s = λ i. record s { get_pos = same i }
  where
    same : s.get_pos ≡ s.get_pos + 0
    same = omega arith

abbrev made : String → Bool → FieldValue → DmlField
made name b v = record { m_name = name; m_transferable = b; m_value = v }

read_made :
    (b : Bool) (name : String) (old new : FieldValue) (s : IoStream) (rest : List ℕ)
    → type_of old ≡ type_of new
    → (b ≡ false → old ≡ new)
    → (b ≡ true → IsExact new)
    → Offers s (field_bytes (made name b new) ++ rest)
    → read_field (made name b old) s
      ≡ (done (made name b new), advance (field_size (made name b new)) s)
unfolding read_field
read_made true name old new s rest type value exact o = rw type (
    bind_done (Field.read_from (type_of new)) _ s (advance (Field.get_size new) s) new
      (read_from-write_to new s rest (exact refl) o))
read_made false name old new s rest type value exact o =
    rw (value refl) (ap (λ t. (done (made name false new), t)) (advance-zero s))

read_field_lem :
    (t f : DmlField) (s : IoStream) (rest : List ℕ)
    → SameKind t f
    → (f.m_transferable ≡ true → IsExact f.m_value)
    → Offers s (field_bytes f ++ rest)
    → read_field t s ≡ (done f, advance (field_size f) s)
read_field_lem t f s rest same exact o =
    ap (λ u. read_field u s) retagged
    ∙ read_made f.m_transferable f.m_name t.m_value f.m_value s rest same.type same.value exact o
  where
    retagged : t ≡ made f.m_name f.m_transferable t.m_value
    retagged = λ i. made (same.name i) (same.transferable i) t.m_value

read_fields_lem :
    (ts fs : List DmlField) (s : IoStream) (rest : List ℕ)
    → AllSameKind ts fs
    → AllExact fs
    → Offers s (write_fields fs ++ rest)
    → read_fields ts s ≡ (done fs, advance (size_fields fs) s)
unfolding read_fields write_fields size_fields
read_fields_lem [] [] s rest same exact o = ap (λ t. (done [], t)) (advance-zero s)
read_fields_lem [] (f ∷ fs) s rest same exact o = elim same [ ]
read_fields_lem (t ∷ ts) [] s rest same exact o = elim same [ ]
read_fields_lem (t ∷ ts) (f ∷ fs) s rest same exact o =
    let o' = rw (append_assoc (field_bytes f) (write_fields fs) rest) at o in
    let next = advance-Offers s (field_bytes f) (write_fields fs ++ rest) o' in
    bind_done (read_field t) _ s (advance (field_size f) s) f
      (read_field_lem t f s (write_fields fs ++ rest) same.0 exact.0 o')
    ∙ bind_done (read_fields ts) _ (advance (field_size f) s)
        (advance (size_fields fs) (advance (field_size f) s)) fs
        (read_fields_lem ts fs _ rest same.1 exact.1 (rw (length-field_bytes f exact.0) at next))
    ∙ ap (λ t'. (done (f ∷ fs), t')) (advance-advance (field_size f) (size_fields fs) s)

-- Two records with the same map.
pub record SameRecordKind (t r : DmlRecord) : Type 0 where
  pub fields : AllSameKind t.m_fields r.m_fields
  pub field_map : t.m_field_map ≡ r.m_field_map

-- For a record r whose transferable fields hold values that are written exactly, and a record t
-- with fields of the same names, transferability and types, the same values where they are not
-- transferable, and the same map of names: reading t from a stream that offers the bytes r writes
-- gives r, and leaves the stream get_size of r bytes further.
pub record_read_from-write_to :
    (t r : DmlRecord) (s : IoStream) (rest : List ℕ)
    → SameRecordKind t r
    → AllExact r.m_fields
    → Offers s (write_to r ++ rest)
    → read_from t s ≡ (done r, advance (get_size r) s)
unfolding read_from write_to get_size
record_read_from-write_to t r s rest same exact o =
    bind_done (read_fields t.m_fields) _ s (advance (size_fields r.m_fields) s) r.m_fields
      (read_fields_lem t.m_fields r.m_fields s rest same.fields exact o)
    ∙ ap
        (λ m. (
          done (record { m_fields = r.m_fields; m_field_map = m }),
          advance (size_fields r.m_fields) s,
        ))
        same.field_map

length-write_fields : (fs : List DmlField) → AllExact fs → length (write_fields fs) ≡ size_fields fs
unfolding write_fields size_fields
length-write_fields [] exact = refl
length-write_fields (f ∷ fs) exact = omega (
  arith,
  length-append (field_bytes f) (write_fields fs),
  length-field_bytes f exact.0,
  length-write_fields fs exact.1,
)

-- For a record whose transferable fields hold values that are written exactly, get_size is the
-- number of bytes that write_to writes.
pub length-write_to_record :
    (r : DmlRecord) → AllExact r.m_fields → length (write_to r) ≡ get_size r
unfolding write_to get_size
length-write_to_record r exact = length-write_fields r.m_fields exact
