-- ===== src/Map.antt =====
-- std::map, and std::unordered_map as far as the code uses it: keys and values in the order of the keys.
-- The order is a test; two keys of which neither stands before the other are the same.
pub mod Names
pub mod Laws
pub mod Keyed
pub mod Orders
use libki.Common.{List, [], ◌∷◌, Option, none, some, Bool, true, false, not, ◌&&◌, if◌then◌else◌}

abbrev pub same : {K : Type 0} → (K → K → Bool) → K → K → Bool
same before a b = not (before a b) && not (before b a)

module _ {K V : Type 0} (before : K → K → Bool) where
  -- find, at and count, where `none` is a missing key.
  unfoldable pub find : K → List (K × V) → Option V
  find k [] = none
  find k ((j, v) ∷ m) = if same before k j then some v else find k m

  -- insert keeps the value of a key that is there.
  unfoldable pub insert : K → V → List (K × V) → List (K × V)
  insert k v [] = (k, v) ∷ []
  insert k v ((j, w) ∷ m) =
      if before k j
      then (k, v) ∷ (j, w) ∷ m
      else if before j k
      then (j, w) ∷ insert k v m
      else (j, w) ∷ m

  -- `m[k] = v`.
  unfoldable pub assign : K → V → List (K × V) → List (K × V)
  assign k v [] = (k, v) ∷ []
  assign k v ((j, w) ∷ m) =
      if before k j
      then (k, v) ∷ (j, w) ∷ m
      else if before j k
      then (j, w) ∷ assign k v m
      else (j, v) ∷ m
