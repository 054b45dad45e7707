-- ===== src/Serializer/Json/Load.antt =====
-- JsonSerializer: how an object is loaded. The exceptions of nlohmann::json are turned into a
-- ki::runtime_error by load.
use libki.Common.{ℕ, zero, suc, ◌+◌, Option, none, some, List, [], ◌∷◌, Bool, if◌then◌else◌}
use libki.Common.Result.{Result, ok, throw, stuck, ◌>>=◌}
use libki.Pclass.EnumType.{RuntimeError, runtime_error}
use libki.Pclass.Object.{
  ValueType, Stored, PropertyInfo, Pointer, null, object, Properties, no_properties, property,
  Elements, values, objects, Pointers, no_pointers, next_pointer, get_element_count, ElementKind,
  of_type, of_class, kind_of, set_object,
}
use libki.Pclass.TypeSystem.{TypeSystem}
use libki.Serializer.Load.{instance_of_hash}
use libki.Serializer.Json.{
  Json, json_null, json_number, json_scalar, json_array, json_object, get_member, get_item,
  json_size,
}
use libki.Serializer.Json.Save.{pclass_meta, type_hash}

module _ {V : Type 0} where
  -- The value of a member, or the exception.
  abbrev pub or_throw : Option (Json V) → Result RuntimeError (Json V)
  or_throw none = throw runtime_error
  or_throw (some j) = ok j

  -- at(i), which only an array has.
  unfoldable pub at : Json V → ℕ → Result RuntimeError (Json V)
  at json_null i = throw runtime_error
  at (json_number n) i = throw runtime_error
  at (json_scalar v) i = throw runtime_error
  at (json_array xs) i = or_throw (get_item xs i)
  at (json_object ms) i = throw runtime_error

  -- The members of an object; count() of another value is 0.
  unfoldable pub find_member : Json V → List ℕ → Option (Json V)
  unfolding get_member
  find_member (json_object ms) name = get_member name ms
  find_member json_null name = none
  find_member (json_number n) name = none
  find_member (json_scalar v) name = none
  find_member (json_array xs) name = none

  -- The JSON value of the element with index i.
  unfoldable pub element_json : Bool → Json V → ℕ → Result RuntimeError (Json V)
  unfolding at
  element_json is_array j i = if is_array then at j i else ok j

-- `number_of` is what nlohmann::json makes of another scalar where the code asks for an integer: a
-- floating-point number is cut, a text is an exception.
module _ {V : Type 0} (number_of : V → Result RuntimeError ℕ) where
  -- value("type_hash", NULL).
  abbrev hash_of_member : Option (Json V) → Result RuntimeError ℕ
  hash_of_member none = ok 0
  hash_of_member (some (json_number n)) = ok n
  hash_of_member (some (json_scalar v)) = number_of v
  hash_of_member (some j) = throw runtime_error

  unfoldable pub read_hash : Json V → Result RuntimeError ℕ
  unfolding get_member
  read_hash (json_object ms) = hash_of_member (get_member type_hash ms)
  read_hash json_null = throw runtime_error
  read_hash (json_number n) = throw runtime_error
  read_hash (json_scalar v) = throw runtime_error
  read_hash (json_array xs) = throw runtime_error

  abbrev made_of : TypeSystem → Option (Json V) → Result RuntimeError Pointer
  made_of ts none = ok null
  made_of ts (some meta) = read_hash meta >>= instance_of_hash ts

  unfoldable pub preload_object : TypeSystem → Json V → Result RuntimeError Pointer
  unfolding find_member read_hash instance_of_hash
  preload_object ts j = made_of ts (find_member j pclass_meta)

module _ {V : Type 0} (from_json : (t : ValueType) → Json V → Result RuntimeError (Stored t)) where
  -- From the index i on.
  unfoldable pub load_values :
      (t : ValueType) → Bool → Json V → ℕ → ℕ → Result RuntimeError (List (Stored t))
  unfolding element_json
  load_values t is_array j i zero = ok []
  load_values t is_array j i (suc n) = do
    x ← element_json is_array j i
    v ← from_json t x
    vs ← load_values t is_array j (i + 1) n
    ok (v ∷ vs)

-- `nested` loads an object that a pointer leads to.
module _ {V : Type 0} (nested : Json V → Result RuntimeError Pointer) where
  unfoldable pub load_pointers : ℕ → Bool → Json V → ℕ → ℕ → Result RuntimeError Pointers
  unfolding element_json set_object
  load_pointers c is_array j i zero = ok no_pointers
  load_pointers c is_array j i (suc n) = do
    x ← element_json is_array j i
    loaded ← nested x
    p ← set_object c loaded
    ps ← load_pointers c is_array j (i + 1) n
    ok (next_pointer p ps)

module _ {V : Type 0} (from_json : (t : ValueType) → Json V → Result RuntimeError (Stored t))
    (nested : Json V → Result RuntimeError Pointer) where
  unfoldable pub load_elements : ElementKind → Bool → Json V → ℕ → Result RuntimeError Elements
  unfolding load_values load_pointers
  load_elements (of_type t) is_array j n =
      load_values from_json t is_array j 0 n >>= λ vs. ok (values t vs)
  load_elements (of_class c) is_array j n =
      load_pointers nested c is_array j 0 n >>= λ xs. ok (objects c xs)

  unfoldable pub load_property : PropertyInfo → Elements → Json V → Result RuntimeError Elements
  unfolding find_member load_elements json_size get_element_count
  load_property info es j = do
    property_j ← or_throw (find_member j info.m_name)
    load_elements (kind_of es) info.is_array property_j
        (if info.is_dynamic then json_size property_j else get_element_count es)

  unfoldable pub load_properties : Properties → Json V → Result RuntimeError Properties
  unfolding load_property
  load_properties no_properties j = ok no_properties
  load_properties (property info es ps) j = do
    es' ← load_property info es j
    ps' ← load_properties ps j
    ok (property info es' ps')

  unfoldable pub load_into : Pointer → Json V → Result RuntimeError Pointer
  unfolding load_properties
  load_into null j = ok null
  load_into (object c ps) j = load_properties ps j >>= λ ps'. ok (object c ps')

module _ {V : Type 0} (number_of : V → Result RuntimeError ℕ)
    (from_json : (t : ValueType) → Json V → Result RuntimeError (Stored t)) where
  -- With fuel for the depth of the value.
  unfoldable pub load_object : ℕ → TypeSystem → Json V → Result RuntimeError Pointer
  unfolding preload_object load_into
  load_object zero ts j = stuck
  load_object (suc fuel) ts j =
      preload_object number_of ts j >>= λ dest. load_into from_json (load_object fuel ts) dest j
