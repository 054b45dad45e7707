-- ===== src/Dml/Record/Copy.antt =====
-- A copy of a record has the same fields.
use libki.Common.{◌≡◌, ◌∙◌, List, [], ◌∷◌, ◌++◌, append-nil, append_assoc, sym}
use libki.Dml.Record.{DmlField, DmlRecord, push_field, add_all, copy, empty}

add_all-m_fields : (fs : List DmlField) (r : DmlRecord) → (add_all fs r).m_fields ≡ r.m_fields ++ fs
unfolding add_all push_field
add_all-m_fields [] r = sym (append-nil r.m_fields)
add_all-m_fields (f ∷ fs) r =
    add_all-m_fields fs (push_field f r) ∙ append_assoc r.m_fields (f ∷ []) fs

pub copy-m_fields : (r : DmlRecord) → (copy r).m_fields ≡ r.m_fields
unfolding copy empty
copy-m_fields r = add_all-m_fields r.m_fields empty
