-- ===== src/Serializer/Json.antt =====
-- JsonSerializer of serialization. A JSON value of nlohmann::json is a tree; an object is the list of
-- its members, whose order is not that of the library's map. How a value of a type becomes JSON and
-- comes from it are parameters, and so are the printing and parsing of a JSON text.
pub mod Save
pub mod Load
pub mod Lookup
pub mod Values
pub mod Objects
pub mod RoundTrip
use libki.Common.{ℕ, zero, suc, Option, none, some, Bool, not, ◌&&◌, if◌then◌else◌}
use libki.Map.{same}
use libki.Map.Names.{Name, name_before}

mutual
  -- json_scalar: a text, a truth value or a number that is not natural, which the serializer passes on.
  pub data Json (V : Type 0) : Type 0 where
    json_null : Json V
    json_number : ℕ → Json V
    json_scalar : V → Json V
    json_array : Items V → Json V
    json_object : Members V → Json V

  pub data Items (V : Type 0) : Type 0 where
    no_items : Items V
    item : Json V → Items V → Items V

  pub data Members (V : Type 0) : Type 0 where
    no_members : Members V
    member : Name → Json V → Members V → Members V

abbrev pub same_name : Name → Name → Bool
same_name a b = same name_before a b

module _ {V : Type 0} where
  -- operator[] with a name, where it is found or made.
  unfoldable pub set_member : Name → Json V → Members V → Members V
  set_member name v no_members = member name v no_members
  set_member name v (member key w ms) =
      let further = member key w (set_member name v ms) in
      if same_name name key then member key v ms else further

  unfoldable pub get_member : Name → Members V → Option (Json V)
  get_member name no_members = none
  get_member name (member key w ms) =
      let further = get_member name ms in if same_name name key then some w else further

  abbrev pub item_count : Items V → ℕ
  item_count no_items = 0
  item_count (item x xs) = suc (item_count xs)

  abbrev pub member_count : Members V → ℕ
  member_count no_members = 0
  member_count (member key w ms) = suc (member_count ms)

  abbrev pub get_item : Items V → ℕ → Option (Json V)
  get_item no_items i = none
  get_item (item x xs) zero = some x
  get_item (item x xs) (suc i) = get_item xs i

  -- json::size.
  unfoldable pub json_size : Json V → ℕ
  json_size json_null = 0
  json_size (json_number n) = 1
  json_size (json_scalar v) = 1
  json_size (json_array xs) = item_count xs
  json_size (json_object ms) = member_count ms
