-- ===== src/Serializer/Json/Values.antt =====
-- JsonSerializer: the values of a property that are saved are loaded again.
use libki.Common.{ℕ, suc, ◌+◌, ◌<◌, ◌≡◌, refl, ap, ◌∙◌, arith, List, [], ◌∷◌, Bool, length}
use libki.Common.Result.{Result, ok}
use libki.Pclass.EnumType.{RuntimeError}
use libki.Pclass.Object.{ValueType, Stored}
use libki.Serializer.Json.{Json, Items, no_items, item, get_item, item_count}
use libki.Serializer.Json.Save.{save_values}
use libki.Serializer.Json.Load.{or_throw, element_json, load_values}

-- What a value becomes, and that it comes back.
module _ {V : Type 0} (to_json : (t : ValueType) → Stored t → Result RuntimeError (Json V))
    (from_json : (t : ValueType) → Json V → Result RuntimeError (Stored t)) where
  abbrev pub Returns : (t : ValueType) → Stored t → Type 0
  Returns t v = (j : Json V) × (to_json t v ≡ ok j) × (from_json t j ≡ ok v)

  -- The elements of a property, from the index i on, stand in its member.
  abbrev pub Gives : Bool → Json V → ℕ → Items V → Type 0
  Gives is_array j i xs =
      (n : ℕ) → n < item_count xs → element_json is_array j (i + n) ≡ or_throw (get_item xs n)

  pub Gives-suc :
      (is_array : Bool) (j x : Json V) (i : ℕ) (xs : Items V)
      → Gives is_array j i (item x xs)
      → Gives is_array j (i + 1) xs
  Gives-suc is_array j x i xs h n lt =
      let moved : i + 1 + n ≡ i + suc n = omega arith in
      ap (λ m. element_json is_array j m) moved ∙ h (suc n) (omega (arith, lt))

  pub Gives-zero :
      (is_array : Bool) (j x : Json V) (i : ℕ) (xs : Items V)
      → Gives is_array j i (item x xs)
      → element_json is_array j i ≡ ok x
  Gives-zero is_array j x i xs h =
      let same_place : i ≡ i + 0 = omega arith in
      ap (λ m. element_json is_array j m) same_place ∙ h 0 (omega arith)

  abbrev pub AllReturn : (t : ValueType) → List (Stored t) → Type 0
  AllReturn t [] = Unit {0}
  AllReturn t (v ∷ vs) = Returns t v × AllReturn t vs

  -- The items of values, and the values from the items.
  pub record SavedValues (t : ValueType) (vs : List (Stored t)) : Type 0 where
    pub items : Items V
    pub saved : save_values to_json t vs ≡ ok items
    pub count : item_count items ≡ length vs
    pub loaded :
        (is_array : Bool) (j : Json V) (i : ℕ)
        → Gives is_array j i items
        → load_values from_json t is_array j i (length vs) ≡ ok vs

  pub values-SavedValues :
      (t : ValueType) (vs : List (Stored t)) → AllReturn t vs → SavedValues t vs
  unfolding save_values load_values
  values-SavedValues t [] h = record {
    items = no_items;
    saved = refl;
    count = refl;
    loaded = λ is_array j i g. refl;
  }
  values-SavedValues t (v ∷ vs) h =
      let rest = values-SavedValues t vs h.1 in
      record {
        items = item h.0.0 rest.items;
        saved = rw (h.0.1, rest.saved) refl;
        count = ap suc rest.count;
        loaded = λ is_array j i g.
            rw
              (
                Gives-zero is_array j h.0.0 i rest.items g,
                h.0.2,
                rest.loaded is_array j (i + 1) (Gives-suc is_array j h.0.0 i rest.items g),
              )
              refl;
      }
