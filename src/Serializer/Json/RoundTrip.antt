-- ===== src/Serializer/Json/RoundTrip.antt =====
-- JsonSerializer: what save_object makes of an object, load_object gives back.
use libki.Common.{ℕ, zero, suc, ◌+◌, ◌≤◌, ◌≡◌, refl, ap, ◌∙◌, arith}
use libki.Common.Result.{Result, ok}
use libki.Map.Names.{Name, name_before}
use libki.Pclass.EnumType.{RuntimeError}
use libki.Pclass.Object.{
  ValueType, Stored, Pointer, null, object, Properties, no_properties, property, Elements, values,
  objects, Pointers, no_pointers, next_pointer, get_element_count,
}
use libki.Pclass.TypeSystem.{TypeSystem}
use libki.Serializer.Load.{instance_of_hash}
use libki.Serializer.Json.{Json, json_object, no_items, item, Members, set_member, get_member}
use libki.Serializer.Json.Save.{
  pclass_meta, property_json, meta, save_values, save_object, save_properties,
}
use libki.Serializer.Json.Load.{
  find_member, read_hash, preload_object, load_pointers, load_elements, load_properties, load_into,
  load_object,
}
use libki.Serializer.Json.Lookup.{get_member-set_member, get_member-set_other}
use libki.Serializer.Json.Values.{Gives-suc, Gives-zero, values-SavedValues}
use libki.Serializer.Json.Objects.{
  NotNamed, Comes, AllCome, HaveCome, PointCome, SavedElements, SavedPointers, load_property-member,
}

-- How many pointers an object has, itself and null included.
unfoldable mutual
  pub weight : Pointer → ℕ
  weight null = 1
  weight (object c ps) = suc (weight_properties ps)

  pub weight_properties : Properties → ℕ
  weight_properties no_properties = 0
  weight_properties (property info es ps) = weight_elements es + weight_properties ps

  pub weight_elements : Elements → ℕ
  weight_elements (values t vs) = 0
  weight_elements (objects c xs) = weight_pointers xs

  pub weight_pointers : Pointers → ℕ
  weight_pointers no_pointers = 0
  weight_pointers (next_pointer x xs) = weight x + weight_pointers xs

module _ {V : Type 0} (to_json : (t : ValueType) → Stored t → Result RuntimeError (Json V))
    (number_of : V → Result RuntimeError ℕ)
    (from_json : (t : ValueType) → Json V → Result RuntimeError (Stored t)) (ts : TypeSystem) where
  record SavedPointer (fuel : ℕ) (x : Pointer) : Type 0 where
    json : Json V
    saved : save_object to_json x ≡ ok json
    loaded : load_object number_of from_json fuel ts json ≡ ok x

  record SavedProperties (fuel : ℕ) (ps new : Properties) (ms : Members V) : Type 0 where
    after : Members V
    saved : save_properties to_json ps ms ≡ ok after
    others : (name : Name) → NotNamed name ps → get_member name after ≡ get_member name ms
    loaded :
        load_properties from_json (load_object number_of from_json fuel ts) new (json_object after)
        ≡ ok ps

  -- The header of an object leads to a new one.
  preload-meta :
      (hash : ℕ) (new : Pointer) (after : Members V)
      → instance_of_hash ts hash ≡ ok new
      → get_member pclass_meta after ≡ get_member pclass_meta (meta to_json hash)
      → preload_object number_of ts (json_object after) ≡ ok new
  unfolding preload_object find_member read_hash get_member meta set_member name_before
  preload-meta hash new after e found = rw (found) e

  mutual
    unfolding save_object weight load_object load_into load_properties load_elements save_values
        load_pointers get_element_count

    object-Saved :
        (x : Pointer) (fuel : ℕ)
        → Comes to_json from_json ts x
        → weight x ≤ fuel
        → SavedPointer fuel x
    object-Saved null zero h enough = absurd (omega (arith, enough))
    object-Saved null (suc fuel) h enough = record {
      json = json_object (meta to_json 0);
      saved = refl;
      loaded = rw (preload-meta 0 null (meta to_json 0) refl refl) refl;
    }
    object-Saved (object c ps) zero h enough = absurd (omega (arith, enough))
    object-Saved (object c ps) (suc fuel) h enough =
        let r = properties-Saved ps h.0 fuel (meta to_json c.m_hash) h.3 (omega (arith, enough)) in
        record {
          json = json_object r.after;
          saved = rw (r.saved) refl;
          loaded =
              rw
                (
                  preload-meta c.m_hash (object c h.0) r.after h.1 (r.others pclass_meta h.2),
                  r.loaded,
                )
                refl;
        }

    properties-Saved :
        (ps new : Properties) (fuel : ℕ) (ms : Members V)
        → AllCome to_json from_json ts ps new
        → weight_properties ps ≤ fuel
        → SavedProperties fuel ps new ms
    properties-Saved no_properties no_properties fuel ms h enough = record {
      after = ms;
      saved = refl;
      others = λ name n. refl;
      loaded = refl;
    }
    properties-Saved no_properties (property info fs new) fuel ms h enough = absurd h
    properties-Saved (property info es ps) no_properties fuel ms h enough = absurd h
    properties-Saved (property info es ps) (property info' fs new) fuel ms h enough =
        let r = elements-Saved es fuel h.4 (omega (arith, enough)) in
        let value = property_json to_json info r.items in
        let rest =
          properties-Saved ps new fuel (set_member info.m_name value ms) h.5
            (omega (arith, enough)) in
        record {
          after = rest.after;
          saved = rw (r.saved) rest.saved;
          others =
              λ name n. rest.others name n.1 ∙ get_member-set_other info.m_name name value ms n.0;
          loaded =
              rw
                (
                  h.0,
                  load_property-member to_json from_json ts
                      (load_object number_of from_json fuel ts) info es fs rest.after r h.2 h.3
                      (rest.others info.m_name h.1 ∙ get_member-set_member info.m_name value ms),
                  rest.loaded,
                )
                refl;
        }

    elements-Saved :
        (es : Elements) (fuel : ℕ)
        → HaveCome to_json from_json ts es
        → weight_elements es ≤ fuel
        → SavedElements to_json from_json ts (load_object number_of from_json fuel ts) es
    elements-Saved (values t vs) fuel h enough =
        let r = values-SavedValues to_json from_json t vs h in
        record {
          items = r.items;
          saved = r.saved;
          count = r.count;
          loaded = λ is_array j g. rw (r.loaded is_array j 0 g) refl;
        }
    elements-Saved (objects c xs) fuel h enough =
        let r = pointers-Saved c xs fuel h enough in
        record {
          items = r.items;
          saved = r.saved;
          count = r.count;
          loaded = λ is_array j g. rw (r.loaded is_array j 0 g) refl;
        }

    pointers-Saved :
        (c : ℕ) (xs : Pointers) (fuel : ℕ)
        → PointCome to_json from_json ts c xs
        → weight_pointers xs ≤ fuel
        → SavedPointers to_json from_json ts (load_object number_of from_json fuel ts) c xs
    pointers-Saved c no_pointers fuel h enough = record {
      items = no_items;
      saved = refl;
      count = refl;
      loaded = λ is_array j i g. refl;
    }
    pointers-Saved c (next_pointer x xs) fuel h enough =
        let first = object-Saved x fuel h.1 (omega (arith, enough)) in
        let rest = pointers-Saved c xs fuel h.2 (omega (arith, enough)) in
        record {
          items = item first.json rest.items;
          saved = rw (first.saved, rest.saved) refl;
          count = ap suc rest.count;
          loaded = λ is_array j i g.
              rw
                (
                  Gives-zero to_json from_json is_array j first.json i rest.items g,
                  first.loaded,
                  h.0,
                  rest.loaded is_array j (i + 1)
                      (Gives-suc to_json from_json is_array j first.json i rest.items g),
                )
                refl;
        }

  -- For any conversions of values to JSON and back, and a type system, let the root be null or an
  -- object of a type that the system makes, with the properties of a new object in their order,
  -- under names that differ from each other and from _pclass_meta; let each property be a vector,
  -- an array of as many elements as the new object has, or one element, and hold values that the
  -- conversions give back or pointers to objects of the class or one derived from it that are
  -- such objects again, or null. Then save_object returns, and load_object of what it returns, on
  -- fuel that is at least the number of the pointers to objects and null in the root, itself
  -- included, gives the root.
  pub load_object-save_object :
      (x : Pointer) (fuel : ℕ)
      → Comes to_json from_json ts x
      → weight x ≤ fuel
      → (j : Json V) × (save_object to_json x ≡ ok j)
        × (load_object number_of from_json fuel ts j ≡ ok x)
  load_object-save_object x fuel h enough =
      let r = object-Saved x fuel h enough in (r.json, r.saved, r.loaded)
