-- ===== src/Examples/Jsons.antt =====
-- JsonSerializer, at the objects of Serializers.
use libki.Common.{
  ℕ, [], ◌∷◌, Bool, true, false, not, ◌==◌, ◌≡◌, ◌≢◌, refl, ap, get_or, inl, inr, arith,
}
use libki.Common.Result.{Result, ok, throw}
use libki.Map.{find}
use libki.Map.Names.{Name}
use libki.Pclass.EnumType.{RuntimeError, runtime_error}
use libki.Pclass.Primitive.{integer, boolean, string, bit_of}
use libki.Pclass.Object.{
  ValueType, primitive, Stored, null, object, Pointers, no_pointers, next_pointer, set_object,
  inherits, get_element_count,
}
use libki.Pclass.TypeSystem.{get_type_hashed, instantiate_type}
use libki.Serializer.Load.{instance_of_hash}
use libki.Serializer.Json.{Json, json_number, json_scalar}
use libki.Serializer.Json.Save.{save_object}
use libki.Serializer.Json.Load.{load_object}
use libki.Serializer.Json.Objects.{Comes, PointCome}
use libki.Serializer.Json.RoundTrip.{weight, load_object-save_object}
use libki.Examples.Serializers.{node, node_properties, leaf, tree, types}

abbrev to_json : (t : ValueType) → Stored t → Result RuntimeError (Json Name)
to_json (primitive boolean) b = ok (json_number (bit_of b))
to_json (primitive (integer n)) v = ok (json_number v)
to_json (primitive (string n)) v = ok (json_scalar v)
to_json _ v = throw runtime_error

abbrev from_json : (t : ValueType) → Json Name → Result RuntimeError (Stored t)
from_json (primitive boolean) (json_number n) = ok (not (n == 0))
from_json (primitive (integer n)) (json_number v) = ok v
from_json (primitive (string n)) (json_scalar v) = ok v
from_json _ j = throw runtime_error

-- No scalar of these is a number.
abbrev cut : Name → Result RuntimeError ℕ
cut v = throw runtime_error

-- Names with different first letters.
differ : (a b : Name) → get_or a 0 0 ≢ get_or b 0 0 → a ≢ b
differ a b h e = h (ap (λ n. get_or n 0 0) e)

-- Values of a node come back.
node-Comes :
    (b : Bool) (xs : Pointers)
    → not (bit_of b == 0) ≡ b
    → PointCome to_json from_json types 77 xs
    → Comes to_json from_json types (object node (node_properties b (65 ∷ 66 ∷ []) xs))
unfolding instance_of_hash get_type_hashed instantiate_type find get_element_count
node-Comes b xs flag come = (
  node_properties false [] no_pointers,
  refl,
  (
    differ _ _ (omega arith),
    (differ _ _ (omega arith), (differ _ _ (omega arith), (differ _ _ (omega arith), tt))),
  ),
  (
    refl,
    (differ _ _ (omega arith), (differ _ _ (omega arith), (differ _ _ (omega arith), tt))),
    refl,
    inr (inr (refl, refl, refl, refl)),
    ((json_number (bit_of b), refl, ap (λ c. ok c) flag), tt),
    (
      refl,
      (differ _ _ (omega arith), (differ _ _ (omega arith), tt)),
      refl,
      inr (inr (refl, refl, refl, refl)),
      ((json_scalar (65 ∷ 66 ∷ []), refl, refl), tt),
      (
        refl,
        (differ _ _ (omega arith), tt),
        refl,
        inr (inr (refl, refl, refl, refl)),
        ((json_number 9, refl, refl), tt),
        (refl, tt, refl, inl (refl, refl), come, tt),
      ),
    ),
  ),
)

tree-Comes : Comes to_json from_json types tree
unfolding set_object inherits
tree-Comes =
    node-Comes false (next_pointer leaf (next_pointer null no_pointers)) refl
      (refl, node-Comes true no_pointers refl tt, (refl, tt, tt))

load_object-save_object_example :
    (j : Json Name) × (save_object to_json tree ≡ ok j)
    × (load_object cut from_json 3 types j ≡ ok tree)
unfolding weight
load_object-save_object_example =
    load_object-save_object to_json cut from_json types tree 3 tree-Comes (omega arith)
