-- ===== src/Serializer/Json/Save.antt =====
-- JsonSerializer: how an object is saved.
use libki.Common.{ℕ, List, [], ◌∷◌, if◌then◌else◌}
use libki.Common.Result.{Result, ok, ◌>>=◌}
use libki.Map.Names.{Name}
use libki.Pclass.EnumType.{RuntimeError}
use libki.Pclass.Object.{
  ValueType, Stored, PropertyInfo, Pointer, null, object, Properties, no_properties, property,
  Elements, values, objects, Pointers, no_pointers, next_pointer,
}
use libki.Serializer.Json.{
  Json, json_null, json_number, json_array, json_object, Items, no_items, item, Members, no_members,
  member, set_member,
}

-- "_pclass_meta" and "type_hash".
abbrev pub pclass_meta : Name
pclass_meta = 95 ∷ 112 ∷ 99 ∷ 108 ∷ 97 ∷ 115 ∷ 115 ∷ 95 ∷ 109 ∷ 101 ∷ 116 ∷ 97 ∷ []

abbrev pub type_hash : Name
type_hash = 116 ∷ 121 ∷ 112 ∷ 101 ∷ 95 ∷ 104 ∷ 97 ∷ 115 ∷ 104 ∷ []

module _ {V : Type 0} (to_json : (t : ValueType) → Stored t → Result RuntimeError (Json V)) where
  abbrev pub last_item : Json V → Items V → Json V
  last_item j no_items = j
  last_item j (item x xs) = last_item x xs

  -- What the elements leave in a property's member: all of an array, else the last one.
  unfoldable pub property_json : PropertyInfo → Items V → Json V
  property_json info xs = if info.is_array then json_array xs else last_item json_null xs

  -- presave_object.
  unfoldable pub meta : ℕ → Members V
  meta hash =
      set_member pclass_meta (json_object (member type_hash (json_number hash) no_members))
        no_members

  unfoldable pub save_values : (t : ValueType) → List (Stored t) → Result RuntimeError (Items V)
  save_values t [] = ok no_items
  save_values t (v ∷ vs) = do x ← to_json t v; xs ← save_values t vs; ok (item x xs)

  unfoldable mutual
    unfolding meta property_json save_values set_member

    pub save_object : Pointer → Result RuntimeError (Json V)
    save_object null = ok (json_object (meta 0))
    save_object (object c ps) = save_properties ps (meta c.m_hash) >>= λ ms. ok (json_object ms)

    pub save_properties : Properties → Members V → Result RuntimeError (Members V)
    save_properties no_properties ms = ok ms
    save_properties (property info es ps) ms = do
      xs ← save_elements es
      save_properties ps (set_member info.m_name (property_json info xs) ms)

    pub save_elements : Elements → Result RuntimeError (Items V)
    save_elements (values t vs) = save_values t vs
    save_elements (objects c xs) = save_pointers xs

    pub save_pointers : Pointers → Result RuntimeError (Items V)
    save_pointers no_pointers = ok no_items
    save_pointers (next_pointer x xs) = do j ← save_object x; js ← save_pointers xs; ok (item j js)
