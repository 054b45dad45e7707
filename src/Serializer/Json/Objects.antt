-- ===== src/Serializer/Json/Objects.antt =====
-- JsonSerializer: which objects come back, and how one property of theirs does.
use libki.Common.{
  ℕ, zero, suc, ◌+◌, ◌≡◌, ◌≢◌, refl, ap, ◌∙◌, arith, some, ◌⊎◌, Bool, true, false, inl, inr,
}
use libki.Common.Result.{Result, ok}
use libki.Map.Names.{Name}
use libki.Pclass.EnumType.{RuntimeError}
use libki.Pclass.Object.{
  ValueType, Stored, PropertyInfo, Pointer, null, object, Properties, no_properties, property,
  Elements, values, objects, Pointers, no_pointers, next_pointer, pointer_count, get_element_count,
  kind_of, set_object,
}
use libki.Pclass.TypeSystem.{TypeSystem}
use libki.Serializer.Load.{instance_of_hash}
use libki.Serializer.Json.{
  Json, json_null, json_array, json_object, Items, no_items, item, Members, get_member, get_item,
  item_count, json_size,
}
use libki.Serializer.Json.Save.{pclass_meta, last_item, property_json, save_elements, save_pointers}
use libki.Serializer.Json.Load.{
  or_throw, at, find_member, element_json, load_pointers, load_elements, load_property,
}
use libki.Serializer.Json.Values.{Gives, AllReturn}

-- No property has the name.
abbrev pub NotNamed : Name → Properties → Type 0
NotNamed name no_properties = Unit {0}
NotNamed name (property info es ps) = (info.m_name ≢ name) × NotNamed name ps

-- A vector, an array with as many elements as that of a new object, or one element.
abbrev pub HasShape : PropertyInfo → Elements → Elements → Type 0
HasShape info es fs =
    ((info.is_dynamic ≡ true) × (info.is_array ≡ true))
    ⊎ (((info.is_dynamic ≡ false)
          × (info.is_array ≡ true)
          × (get_element_count fs ≡ get_element_count es))
        ⊎ ((info.is_dynamic ≡ false)
            × (info.is_array ≡ false)
            × (get_element_count fs ≡ get_element_count es)
            × (get_element_count es ≡ 1)))

module _ {V : Type 0} (to_json : (t : ValueType) → Stored t → Result RuntimeError (Json V))
    (from_json : (t : ValueType) → Json V → Result RuntimeError (Stored t)) (ts : TypeSystem) where
  -- The objects that come back: of types that the system makes, with the properties of a new object
  -- in their order, under names that differ, and values that come back.
  abbrev mutual
    pub Comes : Pointer → Type 0
    Comes null = Unit {0}
    Comes (object c ps) =
        (new : Properties) × (instance_of_hash ts c.m_hash ≡ ok (object c new))
        × NotNamed pclass_meta ps
        × AllCome ps new

    pub AllCome : Properties → Properties → Type 0
    AllCome no_properties no_properties = Unit {0}
    AllCome no_properties (property info fs new) = ⊥
    AllCome (property info es ps) no_properties = ⊥
    AllCome (property info es ps) (property info' fs new) =
        (info' ≡ info)
        × NotNamed info.m_name ps
        × (kind_of fs ≡ kind_of es)
        × HasShape info es fs
        × HaveCome es
        × AllCome ps new

    pub HaveCome : Elements → Type 0
    HaveCome (values t vs) = AllReturn to_json from_json t vs
    HaveCome (objects c xs) = PointCome c xs

    pub PointCome : ℕ → Pointers → Type 0
    PointCome c no_pointers = Unit {0}
    PointCome c (next_pointer x xs) = (set_object c x ≡ ok x) × Comes x × PointCome c xs

  pub record SavedElements (nested : Json V → Result RuntimeError Pointer) (es : Elements)
      : Type 0 where
    pub items : Items V
    pub saved : save_elements to_json es ≡ ok items
    pub count : item_count items ≡ get_element_count es
    pub loaded :
        (is_array : Bool) (j : Json V)
        → Gives to_json from_json is_array j 0 items
        → load_elements from_json nested (kind_of es) is_array j (get_element_count es) ≡ ok es

  array-Gives : (xs : Items V) → Gives to_json from_json true (json_array xs) 0 xs
  unfolding element_json at
  array-Gives xs n lt =
      let same_place : 0 + n ≡ n = omega arith in ap (λ m. or_throw (get_item xs m)) same_place

  single-Gives :
      (xs : Items V)
      → item_count xs ≡ 1
      → Gives to_json from_json false (last_item to_json json_null xs) 0 xs
  unfolding element_json
  single-Gives no_items e n lt = absurd (omega (arith, e))
  single-Gives (item x no_items) e zero lt = refl
  single-Gives (item x no_items) e (suc n) lt = absurd (omega (arith, lt))
  single-Gives (item x (item y xs)) e n lt = absurd (omega (arith, e))

  -- A property is loaded from its member.
  pub load_property-member :
      (nested : Json V → Result RuntimeError Pointer) (info : PropertyInfo) (es fs : Elements)
      (ms : Members V) (r : SavedElements nested es)
      → kind_of fs ≡ kind_of es
      → HasShape info es fs
      → get_member info.m_name ms ≡ some (property_json to_json info r.items)
      → load_property from_json nested info fs (json_object ms) ≡ ok es
  unfolding load_property find_member property_json json_size
  load_property-member nested info es fs ms r kind (inl (dynamic, array)) found =
      rw (found, dynamic, array, kind, r.count) (r.loaded true _ (array-Gives r.items))
  load_property-member nested info es fs ms r kind (inr (inl (static, array, count))) found =
      rw (found, static, array, kind, count) (r.loaded true _ (array-Gives r.items))
  load_property-member nested info es fs ms r kind (inr (inr (static, single, count, one))) found =
      rw (found, static, single, kind, count)
        (r.loaded false _ (single-Gives r.items (r.count ∙ one)))

  pub record SavedPointers (nested : Json V → Result RuntimeError Pointer) (c : ℕ) (xs : Pointers)
      : Type 0 where
    pub items : Items V
    pub saved : save_pointers to_json xs ≡ ok items
    pub count : item_count items ≡ pointer_count xs
    pub loaded :
        (is_array : Bool) (j : Json V) (i : ℕ)
        → Gives to_json from_json is_array j i items
        → load_pointers nested c is_array j i (pointer_count xs) ≡ ok xs
